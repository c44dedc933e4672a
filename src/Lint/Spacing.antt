-- ===== src/Lint/Spacing.antt =====
-- `CheckSpacing` of tools/cpplint.py, with its parts in the modules below.
mod Calls
mod Blank
mod Comments
mod Operators
unfoldable pub use Calls.*
unfoldable pub use Blank.*
unfoldable pub use Comments.*
unfoldable pub use Operators.*
use optimer.Prelude.{
  Bool, List, Option, [], if◌then◌else◌, length, ltb, none, not, some, true, ℕ, ◌&&◌, ◌++◌, ◌+◌,
  ◌==◌, ◌||◌, ◌∷◌,
}
use optimer.Text.{Text, codes, is_space, text_eq}
use optimer.Regex.{
  Cursor, Regex, any_code, bol, boundary, cat, cls, eol, found, group, group_text, none_of, one,
  one_of, plus, re_search, re_sub, space, spaces, star, str, word, words_of,
}
use optimer.Lint.Event.{Event, calls, complain}
use optimer.Lint.Cleanse.{CleansedLines, line_at}
use optimer.Lint.Nesting.{NestingState}

-- operator(==|!=|<|<<|<=|>=|>>|>)\(
abbrev re_operator_method : Regex
re_operator_method = cat (
    str "operator"
    ∷ group 1 (
        words_of (
          codes "=="
          ∷ codes "!="
          ∷ codes "<"
          ∷ codes "<<"
          ∷ codes "<="
          ∷ codes ">="
          ∷ codes ">>"
          ∷ codes ">"
          ∷ []))
    ∷ one b'('
    ∷ [])

--  (if\(|for\(|while\(|switch\()
abbrev re_keyword_call : Regex
re_keyword_call = cat (
    one b' '
    ∷ group 1 (words_of (codes "if(" ∷ codes "for(" ∷ codes "while(" ∷ codes "switch(" ∷ []))
    ∷ [])

-- \b(if|for|while|switch)\s*\(([ ]*)(.).*[^ ]+([ ]*)\)\s*{\s*$
abbrev re_control_parens : Regex
re_control_parens = cat (
    boundary
    ∷ group 1 (words_of (codes "if" ∷ codes "for" ∷ codes "while" ∷ codes "switch" ∷ []))
    ∷ spaces
    ∷ one b'('
    ∷ group 2 (star (cls (one_of (codes " "))))
    ∷ group 3 any_code
    ∷ star any_code
    ∷ plus (cls (none_of (codes " ")))
    ∷ group 4 (star (cls (one_of (codes " "))))
    ∷ one b')'
    ∷ spaces
    ∷ one b'{'
    ∷ spaces
    ∷ eol
    ∷ [])

-- \bfor\s*\(.*; \)
abbrev re_for_end : Regex
re_for_end = cat (boundary ∷ str "for" ∷ spaces ∷ one b'(' ∷ star any_code ∷ str "; )" ∷ [])

-- whether the numbers of spaces inside the parentheses differ, and are not of a `for` with an empty
-- part
mismatched : Text → Cursor → Bool
unfolding group_text text_eq found
mismatched line m =
    let left = length (group_text 2 m) in
    let right = length (group_text 4 m) in
    not (left == right)
    && not (
        (text_eq (group_text 3 m) (codes ";") && left == 1 + right)
        || (left == 0 && found re_for_end line))

parens_events : Text → ℕ → Text → Option (Cursor × Cursor) → List Event
unfolding mismatched group_text
parens_events filename linenum line none = []
parens_events filename linenum line (some m) = calls (
    complain filename linenum (mismatched line m.1) "whitespace/parens" 5
      (codes "Mismatching spaces inside () in " ++ group_text 1 m.1)
    ∷ complain filename linenum (ltb 1 (length (group_text 2 m.1))) "whitespace/parens" 5
        (codes "Should have zero or one spaces inside ( and ) in " ++ group_text 1 m.1)
    ∷ [])

-- ,[^\s]
abbrev re_comma : Regex
re_comma = cat (one b',' ∷ cls (λ c. not (is_space c)) ∷ [])

-- ;[^\s};\\)/]
abbrev re_semicolon : Regex
re_semicolon = cat (one b';' ∷ cls (λ c. not (is_space c || one_of (codes "};\\)/") c)) ∷ [])

-- [^ ({]{
abbrev re_open_brace : Regex
re_open_brace = cat (cls (none_of (codes " ({")) ∷ one b'{' ∷ [])

-- }else
abbrev re_close_else : Regex
re_close_else = str "}else"

-- \w\s+\[
abbrev re_bracket : Regex
re_bracket = cat (word ∷ plus space ∷ one b'[' ∷ [])

-- delete\s+\[
abbrev re_delete_bracket : Regex
re_delete_bracket = cat (str "delete" ∷ plus space ∷ one b'[' ∷ [])

-- :\s*;\s*$
abbrev re_empty_statement : Regex
re_empty_statement = cat (one b':' ∷ spaces ∷ one b';' ∷ spaces ∷ eol ∷ [])

-- ^\s*;\s*$
abbrev re_only_semicolon : Regex
re_only_semicolon = cat (bol ∷ spaces ∷ one b';' ∷ spaces ∷ eol ∷ [])

-- \s+;\s*$
abbrev re_space_semicolon : Regex
re_space_semicolon = cat (plus space ∷ one b';' ∷ spaces ∷ eol ∷ [])

-- \bfor\b
abbrev re_for_word : Regex
re_for_word = cat (boundary ∷ str "for" ∷ boundary ∷ [])

-- for *\(.*[^:]:[^: ]
abbrev re_range_colon_left : Regex
re_range_colon_left = cat (
    str "for"
    ∷ star (one b' ')
    ∷ one b'('
    ∷ star any_code
    ∷ cls (none_of (codes ":"))
    ∷ one b':'
    ∷ cls (none_of (codes ": "))
    ∷ [])

-- for *\(.*[^: ]:[^:]
abbrev re_range_colon_right : Regex
re_range_colon_right = cat (
    str "for"
    ∷ star (one b' ')
    ∷ one b'('
    ∷ star any_code
    ∷ cls (none_of (codes ": "))
    ∷ one b':'
    ∷ cls (none_of (codes ":"))
    ∷ [])

semicolon_events : Text → ℕ → Text → List Event
unfolding found
semicolon_events filename linenum line =
    if found re_empty_statement line
    then complain filename linenum true "whitespace/semicolon" 5
        (codes "Semicolon defining empty statement. Use {} instead.")
    else if found re_only_semicolon line
    then complain filename linenum true "whitespace/semicolon" 5 (
        codes "Line contains only semicolon. If this should be an empty statement, use {} instead.")
    else complain filename linenum (found re_space_semicolon line && not (found re_for_word line))
        "whitespace/semicolon" 5
        (codes
          "Extra space before last semicolon. If this should be an empty statement, use {} instead.")

bracket_events : Text → ℕ → Text → List Event
unfolding found
bracket_events filename linenum line = calls (
    complain filename linenum (found re_open_brace line) "whitespace/braces" 5
      (codes "Missing space before {")
    ∷ complain filename linenum (found re_close_else line) "whitespace/braces" 5
        (codes "Missing space before else")
    ∷ complain filename linenum (found re_bracket line && not (found re_delete_bracket line))
        "whitespace/braces" 5 (codes "Extra space before [")
    ∷ [])

unfoldable pub check_spacing : Text → CleansedLines → ℕ → NestingState → List Event
unfolding re_sub re_search found check_blank_line check_comment_spacing operator_events group_events
    parens_events check_spacing_for_function_call bracket_events semicolon_events
check_spacing filename clean linenum nesting =
    let line = re_sub re_operator_method (codes "operator\\(") (line_at clean.elided linenum) in
    calls (
      check_blank_line filename clean linenum nesting
      ∷ check_comment_spacing filename linenum (line_at clean.raw_lines linenum)
      ∷ operator_events filename clean linenum line
      ∷ group_events filename linenum 1 "whitespace/parens" 5 (codes "Missing space before ( in ")
          (re_search re_keyword_call line)
      ∷ parens_events filename linenum line (re_search re_control_parens line)
      ∷ complain filename linenum (found re_comma line) "whitespace/comma" 3
          (codes "Missing space after ,")
      ∷ complain filename linenum (found re_semicolon line) "whitespace/semicolon" 3
          (codes "Missing space after ;")
      ∷ check_spacing_for_function_call filename line linenum
      ∷ bracket_events filename linenum line
      ∷ semicolon_events filename linenum line
      ∷ complain filename linenum
          (found re_range_colon_left line || found re_range_colon_right line) "whitespace/forcolon"
          2 (codes "Missing space around colon in range-based for loop")
      ∷ [])
