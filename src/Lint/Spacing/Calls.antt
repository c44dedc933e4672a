-- ===== src/Lint/Spacing/Calls.antt =====
-- `CheckSpacingForFunctionCall` of tools/cpplint.py.
use optimer.Prelude.{List, [], if◌then◌else◌, none, not, some, true, ℕ, ◌&&◌, ◌==◌, ◌||◌, ◌∷◌}
use optimer.Text.{Text, codes, is_space}
use optimer.Regex.{
  Regex, alt, any_code, bol, boundary, cat, cls, eol, found, group, group_text, none_of, not_ahead,
  one, one_of, opt, plus, re_search, space, spaces, star, str, word, words_of,
}
use optimer.Lint.Event.{Event, calls, complain}

-- \bif\s*\((.*)\)\s*{
abbrev re_if : Regex
re_if = cat (
    boundary
    ∷ str "if"
    ∷ spaces
    ∷ one b'('
    ∷ group 1 (star any_code)
    ∷ one b')'
    ∷ spaces
    ∷ one b'{'
    ∷ [])

-- \bfor\s*\((.*)\)\s*{
abbrev re_for : Regex
re_for = cat (
    boundary
    ∷ str "for"
    ∷ spaces
    ∷ one b'('
    ∷ group 1 (star any_code)
    ∷ one b')'
    ∷ spaces
    ∷ one b'{'
    ∷ [])

-- \bwhile\s*\((.*)\)\s*[{;]
abbrev re_while : Regex
re_while = cat (
    boundary
    ∷ str "while"
    ∷ spaces
    ∷ one b'('
    ∷ group 1 (star any_code)
    ∷ one b')'
    ∷ spaces
    ∷ cls (one_of (codes "{;"))
    ∷ [])

-- \bswitch\s*\((.*)\)\s*{
abbrev re_switch : Regex
re_switch = cat (
    boundary
    ∷ str "switch"
    ∷ spaces
    ∷ one b'('
    ∷ group 1 (star any_code)
    ∷ one b')'
    ∷ spaces
    ∷ one b'{'
    ∷ [])

-- the part in the parentheses of a control structure, or else the line
call_part : List Regex → Text → Text
unfolding re_search group_text
call_part [] line = line
call_part (r ∷ rs) line = elim (re_search r line) [
  | some m ↦ group_text 1 m.1
  | none ↦ call_part rs line
]

-- \b(if|for|while|switch|return|delete)\b
abbrev re_control : Regex
re_control = cat (
    boundary
    ∷ group 1 (
        words_of (
          codes "if"
          ∷ codes "for"
          ∷ codes "while"
          ∷ codes "switch"
          ∷ codes "return"
          ∷ codes "delete"
          ∷ []))
    ∷ boundary
    ∷ [])

--  \([^)]+\)\([^)]*(\)|,$)
abbrev re_function_pointer : Regex
re_function_pointer = cat (
    str " ("
    ∷ plus (cls (none_of (codes ")")))
    ∷ str ")("
    ∷ star (cls (none_of (codes ")")))
    ∷ group 1 (alt (one b')') (cat (one b',' ∷ eol ∷ [])))
    ∷ [])

--  \([^)]+\)\[[^\]]+\]
abbrev re_array_pointer : Regex
re_array_pointer = cat (
    str " ("
    ∷ plus (cls (none_of (codes ")")))
    ∷ str ")["
    ∷ plus (cls (none_of (codes "]")))
    ∷ one b']'
    ∷ [])

-- \w\s*\(\s(?!\s*\\$)
abbrev re_space_in_call : Regex
re_space_in_call =
    cat (word ∷ spaces ∷ one b'(' ∷ space ∷ not_ahead (cat (spaces ∷ one 92 ∷ eol ∷ [])) ∷ [])

-- \(\s+(?!(\s*\\)|\()
abbrev re_space_after_open : Regex
re_space_after_open =
    cat (
      one b'('
      ∷ plus space
      ∷ not_ahead (alt (group 1 (cat (spaces ∷ one 92 ∷ []))) (one b'('))
      ∷ [])

-- \w\s+\(
abbrev re_space_before_open : Regex
re_space_before_open = cat (word ∷ plus space ∷ one b'(' ∷ [])

-- #\s*define|typedef
abbrev re_define : Regex
re_define = alt (cat (one b'#' ∷ spaces ∷ str "define" ∷ [])) (str "typedef")

-- \w\s+\((\w+::)?\*\w+\)\(
abbrev re_member_pointer : Regex
re_member_pointer = cat (
    word
    ∷ plus space
    ∷ one b'('
    ∷ opt (group 1 (cat (plus word ∷ str "::" ∷ [])))
    ∷ one b'*'
    ∷ plus word
    ∷ str ")("
    ∷ [])

-- [^)]\s+\)\s*[^{\s]
abbrev re_space_before_close : Regex
re_space_before_close = cat (
    cls (none_of (codes ")"))
    ∷ plus space
    ∷ one b')'
    ∷ spaces
    ∷ cls (λ c. not (is_space c || c == b'{'))
    ∷ [])

-- ^\s+\)
abbrev re_close_first : Regex
re_close_first = cat (bol ∷ plus space ∷ one b')' ∷ [])

unfoldable pub check_spacing_for_function_call : Text → Text → ℕ → List Event
unfolding call_part found
check_spacing_for_function_call filename line linenum =
    let fncall = call_part (re_if ∷ re_for ∷ re_while ∷ re_switch ∷ []) line in
    if not (found re_control fncall)
      && (not (found re_function_pointer fncall) && not (found re_array_pointer fncall))
    then calls (
        (if found re_space_in_call fncall
          then complain filename linenum true "whitespace/parens" 4
              (codes "Extra space after ( in function call")
          else complain filename linenum (found re_space_after_open fncall) "whitespace/parens" 2
              (codes "Extra space after ("))
        ∷ complain filename linenum
            (found re_space_before_open fncall
              && (not (found re_define fncall) && not (found re_member_pointer fncall)))
            "whitespace/parens" 4 (codes "Extra space before ( in function call")
        ∷ complain filename linenum (found re_space_before_close fncall) "whitespace/parens" 2 (
            if found re_close_first fncall
            then codes "Closing ) should be moved to the previous line"
            else codes "Extra space before )")
        ∷ [])
    else []
