-- ===== src/Lint/BraceStyle.antt =====
-- `CheckBraces` and `CheckEmptyLoopBody` of tools/cpplint.py.
use mathlib.Core.Option
pub mod Rounds
pub mod Loop
use optimer.Prelude.{
  Bool, List, Option, [], drop, false, if◌then◌else◌, length, ltb, none, not, some, suc, true, zero,
  ℕ, ◌&&◌, ◌++◌, ◌+◌, ◌-◌, ◌==◌, ◌||◌, ◌∷◌,
}
use optimer.Text.{Text, codes, contains, find, is_space, starts_with}
use optimer.Regex.{
  Regex, alt, any_code, boundary, cat, cls, eol, found, group, matches, none_of, one, one_of, plus,
  space, spaces, star, str, words_of,
}
use optimer.Lint.Event.{Event, calls, complain}
use optimer.Lint.Cleanse.{CleansedLines, line_at}
use optimer.Lint.Expression.{close_expression, count_code}
use optimer.Lint.Lines.{get_previous_non_blank_line, previous_from}

-- \s*{\s*$
abbrev re_open_alone : Regex
re_open_alone = cat (spaces ∷ one b'{' ∷ spaces ∷ eol ∷ [])

-- [;:}{]\s*$
abbrev re_may_open : Regex
re_may_open = cat (cls (one_of (codes ";:}{")) ∷ spaces ∷ eol ∷ [])

-- \s*#
abbrev re_preprocessor : Regex
re_preprocessor = cat (spaces ∷ one b'#' ∷ [])

-- \s*else\s*
abbrev re_else : Regex
re_else = cat (spaces ∷ str "else" ∷ spaces ∷ [])

-- \s*}\s*$
abbrev re_close_alone : Regex
re_close_alone = cat (spaces ∷ one b'}' ∷ spaces ∷ eol ∷ [])

-- }\s*else[^{]*$
abbrev re_close_before_else : Regex
re_close_before_else =
    cat (one b'}' ∷ spaces ∷ str "else" ∷ star (cls (none_of (codes "{"))) ∷ eol ∷ [])

-- [^}]*else\s*{
abbrev re_open_behind_else : Regex
re_open_behind_else = cat (star (cls (none_of (codes "}"))) ∷ str "else" ∷ spaces ∷ one b'{' ∷ [])

-- }\s*else if([^{]*)$
abbrev re_else_if : Regex
re_else_if =
    cat (one b'}' ∷ spaces ∷ str "else if" ∷ group 1 (star (cls (none_of (codes "{")))) ∷ eol ∷ [])

-- \belse [^\s{]
abbrev re_else_clause : Regex
re_else_clause = cat (boundary ∷ str "else " ∷ cls (λ c. not (is_space c || c == b'{')) ∷ [])

-- \belse if\b
abbrev re_else_if_words : Regex
re_else_if_words = cat (boundary ∷ str "else if" ∷ boundary ∷ [])

-- \s*do [^\s{]
abbrev re_do : Regex
re_do = cat (spaces ∷ str "do " ∷ cls (λ c. not (is_space c || c == b'{')) ∷ [])

-- \s+{.*}\s*;
abbrev pub re_braces_statement : Regex
re_braces_statement =
    cat (plus space ∷ one b'{' ∷ star any_code ∷ one b'}' ∷ spaces ∷ one b';' ∷ [])

-- {.*}\s*;
abbrev re_braces_semicolon : Regex
re_braces_semicolon = cat (one b'{' ∷ star any_code ∷ one b'}' ∷ spaces ∷ one b';' ∷ [])

-- struct|class|enum|\s*=\s*{
abbrev re_may_end : Regex
re_may_end =
    alt (str "struct")
      (alt (str "class") (alt (str "enum") (cat (spaces ∷ one b'=' ∷ spaces ∷ one b'{' ∷ []))))

-- the line of the pair that `GetPreviousNonBlankLine` returns
unfoldable pub previous_line : Option (Text × ℕ) → Text
previous_line none = []
previous_line (some p) = p.0

-- The number of the pair: -1 and 0 are one here, since no line stands above either.
unfoldable pub previous_number : Option (Text × ℕ) → ℕ
previous_number none = 0
previous_number (some p) = p.1

-- whether the line above is put in front
unfoldable pub goes_on : List Text → ℕ → Text → Bool
unfolding matches contains
goes_on elided above line =
    matches re_braces_statement line
    && not (contains (previous_line (previous_from elided above)) (codes ";"))

-- The loop that puts the lines above in front of a line; `above` of them are left. `none` is a loop
-- that has not ended after the rounds.
unfoldable pub join_back : ℕ → List Text → ℕ → Text → Option Text
unfolding goes_on previous_line previous_number previous_from
join_back zero elided above line = none
join_back (suc rounds) elided above line =
    let p = previous_from elided above in
    let more = join_back rounds elided (previous_number p) (previous_line p ++ line) in
    if goes_on elided above line then more else some line

-- s[pos:], where `none` is the position -1
abbrev from_position : Text → Option ℕ → Text
from_position s none = drop (length s - 1) s
from_position s (some position) = drop position s

-- s.find(c, position)
unfoldable pub find_from : Text → Text → ℕ → Option ℕ
unfolding find
find_from s p position = Option.map (λ i. i + position) (find (drop position s) p)

-- whether no brace follows the condition of the `else if` that spans lines
brace_is_missing : CleansedLines → ℕ → Option ℕ → Bool
unfolding close_expression contains
brace_is_missing clean linenum none = false
brace_is_missing clean linenum (some pos) =
    let end = close_expression clean linenum pos in
    ltb 0 pos && not (contains (from_position end.line end.position) (codes "{"))

else_if_position : Text → Option ℕ
unfolding find find_from
else_if_position line = elim (find line (codes "else if")) [
  | none ↦ none
  | some pos ↦ find_from line (codes "(") pos
]

-- whether an `else` has a brace on one side only
unfoldable pub one_sided_else : CleansedLines → ℕ → Text → Bool
unfolding found matches brace_is_missing else_if_position
one_sided_else clean linenum line =
    (found re_close_before_else line || matches re_open_behind_else line)
    && (if found re_else_if line
        then brace_is_missing clean linenum (else_if_position line)
        else true)

unfoldable pub brace_position_events : Text → CleansedLines → ℕ → List Event
unfolding found matches one_sided_else previous_line get_previous_non_blank_line
brace_position_events filename clean linenum =
    let line = line_at clean.elided linenum in
    let prevline = previous_line (get_previous_non_blank_line clean linenum) in
    calls (
      complain filename linenum
        (matches re_open_alone line
          && (not (found re_may_open prevline) && not (matches re_preprocessor prevline)))
        "whitespace/braces" 4 (codes "{ should almost always be at the end of the previous line")
      ∷ complain filename linenum (matches re_else line && matches re_close_alone prevline)
          "whitespace/newline" 4 (codes "An else should appear on the same line as the preceding }")
      ∷ complain filename linenum (one_sided_else clean linenum line) "readability/braces" 5
          (codes "If an else has a brace on one side, it should have it on both")
      ∷ complain filename linenum (found re_else_clause line && not (found re_else_if_words line))
          "whitespace/newline" 4
          (codes "Else clause should never be on same line as else (use 2 lines)")
      ∷ complain filename linenum (matches re_do line) "whitespace/newline" 4
          (codes "do/while clauses should not be on a single line")
      ∷ [])

-- the semicolon behind a brace, in the line with those that were put in front
unfoldable pub brace_end_events : Text → ℕ → Text → List Event
unfolding found count_code
brace_end_events filename linenum line =
    complain filename linenum
      (found re_braces_semicolon line
        && (count_code b'{' line == count_code b'}' line && not (found re_may_end line)))
      "readability/braces" 4 (codes "You don't need a ; after a }")

-- `none` is a check that does not end: each line above is passed once, so that a loop that ends has
-- ended after one round more than there are lines above.
unfoldable pub check_braces : Text → CleansedLines → ℕ → Option (List Event)
unfolding brace_position_events join_back brace_end_events
check_braces filename clean linenum =
    Option.map
      (λ line.
        brace_position_events filename clean linenum ++ brace_end_events filename linenum line)
      (join_back (suc linenum) clean.elided linenum (line_at clean.elided linenum))

-- \s*(for|while)\s*\(
abbrev re_loop : Regex
re_loop =
    cat (spaces ∷ group 1 (words_of (codes "for" ∷ codes "while" ∷ [])) ∷ spaces ∷ one b'(' ∷ [])

-- the code behind the condition of a loop
begins_with_semicolon : Text → Option ℕ → Bool
unfolding starts_with
begins_with_semicolon line none = false
begins_with_semicolon line (some pos) = starts_with (drop pos line) (codes ";")

empty_loop_events : Text → CleansedLines → ℕ → Option ℕ → List Event
unfolding close_expression begins_with_semicolon
empty_loop_events filename clean linenum none = []
empty_loop_events filename clean linenum (some pos) =
    let end = close_expression clean linenum pos in
    complain filename end.linenum (begins_with_semicolon end.line end.position)
      "whitespace/empty_loop_body" 5 (codes "Empty loop bodies should use {} or continue")

unfoldable pub check_empty_loop_body : Text → CleansedLines → ℕ → List Event
unfolding matches find empty_loop_events
check_empty_loop_body filename clean linenum =
    let line = line_at clean.elided linenum in
    if matches re_loop line
    then empty_loop_events filename clean linenum (find line (codes "("))
    else []
