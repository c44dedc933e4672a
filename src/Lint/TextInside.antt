-- ===== src/Lint/TextInside.antt =====
-- `_GetTextInside` of tools/cpplint.py.
pub mod Balanced
use optimer.Prelude.{
  Bool, List, Option, [], if◌then◌else◌, none, not, some, take, ℕ, ◌&&◌, ◌+◌, ◌-◌, ◌==◌, ◌||◌, ◌∷◌,
}
use optimer.Text.{Text}
use optimer.Regex.{Regex, multiline, re_search}
use optimer.Lint.Expression.{closing}

abbrev pub is_closing : ℕ → Bool
is_closing c = c == b')' || (c == b']' || c == b'}')

abbrev pub or_keep : List ℕ → Option ℕ → List ℕ
or_keep stack none = stack
or_keep stack (some c) = c ∷ stack

-- The loop: the brackets that are expected, the nearest first, and the codes read so far.
unfoldable pub inside_from : List ℕ → ℕ → Text → Option ℕ
unfolding closing
inside_from [] n s = some n
inside_from (p ∷ ps) n [] = none
inside_from (p ∷ ps) n (c ∷ s) =
    let stack = if c == p then ps else or_keep (p ∷ ps) (closing c) in
    let rest = inside_from stack (n + 1) s in if not (c == p) && is_closing c then none else rest

abbrev code_before : Text → ℕ
code_before [] = 0
code_before (c ∷ s) = c

-- What the call gives: an AssertionError, None, or the text.
pub data Inside : Type 0 where
  assertion_failed : Inside
  not_inside : Inside
  inside_text : Text → Inside

-- text[start_position:position - 1]
inside_of : Text → Option ℕ → Inside
inside_of rest none = not_inside
inside_of rest (some n) = inside_text (take (n - 1) rest)

inside_at : Text → Option ℕ → Inside
unfolding inside_from inside_of
inside_at rest none = assertion_failed
inside_at rest (some close) = inside_of rest (inside_from (close ∷ []) 0 rest)

-- re.search(start_pattern, text, re.M), and the scan behind the match
unfoldable pub get_text_inside : Text → Regex → Inside
unfolding inside_at multiline
get_text_inside text start_pattern = elim (re_search (multiline start_pattern) text) [
  | none ↦ not_inside
  | some m ↦ inside_at m.1.rest (closing (code_before m.1.before))
]
