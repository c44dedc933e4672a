-- ===== src/Lint/Angle.antt =====
-- `FindNextMatchingAngleBracket` and `FindPreviousMatchingAngleBracket` of tools/cpplint.py. The
-- search for the next operator of a line, `^[^<>(),;\[\]]*([<>(),;\[\]])(.*)$`, is the walk over its
-- codes to the first of the set, and the search from the right the same walk over the line reversed.
use mathlib.Core.List.{reverse}
use optimer.Prelude.{Bool, List, [], drop, false, if◌then◌else◌, map, take, true, ℕ, ◌+◌, ◌==◌, ◌∷◌}
use optimer.Text.{Text, codes}
use optimer.Regex.{found, one_of}
use optimer.Lint.Cleanse.{CleansedLines}

-- The loop goes on with the nesting stack, or has its answer.
pub data Search : Type 0 where
  going : List ℕ → Search
  answer : Bool → Search

abbrev pub operators : Text
operators = codes "<>(),;[]"

after_pop : List ℕ → Search
after_pop [] = answer true
after_pop (t ∷ ts) = going (t ∷ ts)

-- An operator, where the top of the stack is the bracket `self` and expects `other`; `pushes` are the
-- operators that open, from this side.
at_angle : ℕ → Text → List ℕ → ℕ → Search
unfolding after_pop
at_angle other pushes stack c =
    if one_of pushes c
    then going (c ∷ stack)
    else if c == other
    then after_pop (drop 1 stack)
    else answer (c == b',')

-- where the top of the stack is another bracket
at_other : Text → Text → List ℕ → ℕ → Search
at_other pushes pops stack c =
    if one_of pushes c
    then going (c ∷ stack)
    else if one_of pops c
    then going (drop 1 stack)
    else going stack

operator_step : ℕ → ℕ → Text → Text → List ℕ → ℕ → Search
unfolding at_angle at_other
operator_step self other pushes pops [] c = answer true
operator_step self other pushes pops (t ∷ ts) c =
    if t == self then at_angle other pushes (t ∷ ts) c else at_other pushes pops (t ∷ ts) c

-- one code of a line
code_step : (List ℕ → ℕ → Search) → Search → ℕ → Search
code_step f (answer b) c = answer b
code_step f (going stack) c = if one_of operators c then f stack c else going stack

line_search : (List ℕ → ℕ → Search) → Search → Text → Search
unfolding code_step
line_search f found [] = found
line_search f found (c ∷ s) = line_search f (code_step f found c) s

lines_search : (List ℕ → ℕ → Search) → Search → List Text → Search
unfolding line_search
lines_search f found [] = found
lines_search f found (line ∷ lines) = lines_search f (line_search f found line) lines

or_answer : Bool → Search → Bool
or_answer b (going stack) = b
or_answer b (answer a) = a

next_step : List ℕ → ℕ → Search
unfolding operator_step
next_step = operator_step b'<' b'>' (codes "<([") (codes ")]")

previous_step : List ℕ → ℕ → Search
unfolding operator_step
previous_step = operator_step b'>' b'<' (codes ">)]") (codes "([")

unfoldable pub find_next_matching_angle_bracket : CleansedLines → ℕ → Text → Bool
unfolding lines_search next_step or_answer
find_next_matching_angle_bracket clean linenum init_suffix =
    or_answer true
      (lines_search next_step (going (b'<' ∷ [])) (init_suffix ∷ drop (linenum + 1) clean.elided))

-- The lines above are read from the nearest one, each from its end.
unfoldable pub find_previous_matching_angle_bracket : CleansedLines → ℕ → Text → Bool
unfolding lines_search previous_step or_answer
find_previous_matching_angle_bracket clean linenum init_prefix = or_answer false (
    lines_search previous_step (going (b'>' ∷ []))
      (map reverse (init_prefix ∷ reverse (take linenum clean.elided))))
