-- ===== src/Lint/Bodies.antt =====
-- `CheckForFunctionLengths` of tools/cpplint.py.
use optimer.Prelude.{
  Bool, List, Option, [], drop, false, if◌then◌else◌, none, not, some, ℕ, ◌++◌, ◌==◌, ◌||◌, ◌∷◌,
}
use optimer.Text.Unicode.{unicode_lstrip, unicode_words}
use optimer.Text.{Text, codes, is_space, is_upper, last_piece, text_eq}
use optimer.Regex.{
  Cursor, Regex, alt, any_code, bol, cat, cls, eol, found, group, group_of, is_word, matches, one,
  one_of, plus, re_match, re_search, seq, spaces, star, str, text_or_empty,
}
use optimer.Lint.Event.{Event, report}
use optimer.Lint.Cleanse.{CleansedLines, line_at}
use optimer.Lint.Function.{FunctionState, begin_function, check_function, count_line, end_function}

-- (\w(\w|::|\*|\&|\s)*)\(
re_declaration : Regex
re_declaration =
    seq
      (group 1 (
        seq (cls is_word) (
          star (
            group 2 (
              alt (cls is_word)
                (alt (str "::") (alt (one b'*') (alt (one b'&') (cls is_space)))))))))
      (one b'(')

-- [A-Z_]+$
re_macro : Regex
re_macro = seq (plus (cls λ c. is_upper c || c == b'_')) eol

starts_function : Text → Bool
unfolding re_declaration re_match re_macro matches group_of unicode_words text_eq
starts_function line = elim (re_match re_declaration line) [
  | none ↦ false
  | some m ↦
      let name = last_piece (unicode_words (text_or_empty (group_of 1 m.groups))) in
      text_eq name (codes "TEST") || (text_eq name (codes "TEST_F") || not (matches re_macro name))
]

-- ((\w|:)*)\(
re_name : Regex
re_name = seq (group 1 (star (group 2 (alt (cls is_word) (one b':'))))) (one b'(')

-- (\(.*\))
re_parameters : Regex
re_parameters = group 1 (cat (one b'(' ∷ star any_code ∷ one b')' ∷ []))

found_group : Option (Cursor × Cursor) → Option Text
unfolding group_of
found_group none = none
found_group (some m) = group_of 1 m.1.groups

-- the name that is tracked, with the parameters of a test macro
tracked_name : Text → Text → Text
unfolding re_name re_parameters re_search matches found_group
tracked_name line joined_line =
    let function = text_or_empty (found_group (re_search re_name line)) in
    if matches (str "TEST") function
    then function ++ text_or_empty (found_group (re_search re_parameters joined_line))
    else function ++ codes "()"

-- The lines from the start on: a `;` or `}` ends the search, and a `{` begins the body.
body_loop : Text → ℕ → Text → Text → List Text → FunctionState → FunctionState × List Event
unfolding tracked_name found unicode_lstrip
body_loop filename linenum line joined [] s = (
  s,
  report filename linenum (codes "readability/fn_size") 5
        (codes "Lint failed to find start of function body.")
      ∷ [],
)
body_loop filename linenum line joined (start_line ∷ rest) s =
    let joined' = joined ++ b' ' ∷ unicode_lstrip start_line in
    let later = body_loop filename linenum line joined' rest s in
    if found (cls (one_of (codes ";}"))) start_line
    then (s, [])
    else if found (one b'{') start_line
    then (begin_function (tracked_name line joined') s, [])
    else later

-- ^\}\s*$
re_end : Regex
re_end = cat (bol ∷ one b'}' ∷ spaces ∷ eol ∷ [])

-- ^\s*$
re_blank : Regex
re_blank = cat (bol ∷ spaces ∷ eol ∷ [])

unfoldable pub check_for_function_lengths :
    Text → ℕ → CleansedLines → ℕ → FunctionState → FunctionState × List Event
unfolding starts_function body_loop re_end re_blank matches begin_function end_function count_line
    check_function
check_for_function_lengths filename verbose_level clean linenum s =
    let line = line_at clean.lines linenum in
    if starts_function line
    then body_loop filename linenum line [] (drop linenum clean.lines) s
    else if matches re_end line
    then (end_function s, check_function filename linenum verbose_level s)
    else if matches re_blank line
    then (s, [])
    else (count_line s, [])
