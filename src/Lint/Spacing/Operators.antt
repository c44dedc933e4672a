-- ===== src/Lint/Spacing/Operators.antt =====
-- The spaces round operators and brackets, in `CheckSpacing` of tools/cpplint.py.
use optimer.Prelude.{
  Bool, List, Option, String, [], all, false, if◌then◌else◌, none, not, some, true, ℕ, ◌&&◌, ◌++◌,
  ◌==◌, ◌||◌, ◌∷◌,
}
use optimer.Text.{Text, codes, is_digit, is_lower, is_space, is_upper, replace}
use optimer.Regex.{
  Cursor, Regex, alt, any_code, bol, boundary, cat, cls, found, group, group_text, is_word, matches,
  one, one_of, opt, re_search, space, star, str, words_of,
}
use optimer.Lint.Event.{Event, calls, complain}
use optimer.Lint.Cleanse.{CleansedLines}
use optimer.Lint.Angle.{find_next_matching_angle_bracket, find_previous_matching_angle_bracket}

-- [\w.]=[\w.]
abbrev re_assignment : Regex
re_assignment =
    cat (cls (λ c. is_word c || c == b'.') ∷ one b'=' ∷ cls (λ c. is_word c || c == b'.') ∷ [])

-- \b(if|while)
abbrev re_condition : Regex
re_condition = cat (boundary ∷ group 1 (words_of (codes "if" ∷ codes "while" ∷ [])) ∷ one b' ' ∷ [])

-- [^<>=!\s](==|!=|<=|>=)[^<>=!\s]
abbrev re_comparison : Regex
re_comparison = cat (
    cls (λ c. not (is_space c || one_of (codes "<>=!") c))
    ∷ group 1 (words_of (codes "==" ∷ codes "!=" ∷ codes "<=" ∷ codes ">=" ∷ []))
    ∷ cls (λ c. not (is_space c || one_of (codes "<>=!") c))
    ∷ [])

-- a call of the error handler with the text of a group, if the pattern is found
unfoldable pub group_events :
    Text → ℕ → ℕ → String → ℕ → Text → Option (Cursor × Cursor) → List Event
unfolding group_text
group_events filename linenum n category confidence message none = []
group_events filename linenum n category confidence message (some m) =
    complain filename linenum true category confidence (message ++ group_text n m.1)

-- (\S)(?:L|UL|ULL|l|ul|ull)?<<(\S)
abbrev re_shift_left : Regex
re_shift_left = cat (
    group 1 (cls (λ c. not (is_space c)))
    ∷ opt (
        words_of (codes "L" ∷ codes "UL" ∷ codes "ULL" ∷ codes "l" ∷ codes "ul" ∷ codes "ull" ∷ []))
    ∷ str "<<"
    ∷ group 2 (cls (λ c. not (is_space c)))
    ∷ [])

abbrev all_digits : Text → Bool
all_digits [] = false
all_digits (c ∷ s) = all is_digit (c ∷ s)

shifts_left : Option (Cursor × Cursor) → Bool
unfolding group_text
shifts_left none = false
shifts_left (some m) = not (all_digits (group_text 1 m.1) && all_digits (group_text 2 m.1))

-- #.*include
abbrev re_preprocessor_include : Regex
re_preprocessor_include = cat (one b'#' ∷ star any_code ∷ str "include" ∷ [])

-- [^\s<]<([^\s=<].*)
abbrev re_less : Regex
re_less = cat (
    cls (λ c. not (is_space c || c == b'<'))
    ∷ one b'<'
    ∷ group 1 (cat (cls (λ c. not (is_space c || one_of (codes "=<") c)) ∷ star any_code ∷ []))
    ∷ [])

-- ^(.*[^\s>])>[^\s=>]
abbrev re_greater : Regex
re_greater = cat (
    bol
    ∷ group 1 (cat (star any_code ∷ cls (λ c. not (is_space c || c == b'>')) ∷ []))
    ∷ one b'>'
    ∷ cls (λ c. not (is_space c || one_of (codes "=>") c))
    ∷ [])

unmatched_less : CleansedLines → ℕ → Option (Cursor × Cursor) → Bool
unfolding find_next_matching_angle_bracket group_text
unmatched_less clean linenum none = false
unmatched_less clean linenum (some m) =
    not (find_next_matching_angle_bracket clean linenum (group_text 1 m.1))

unmatched_greater : CleansedLines → ℕ → Option (Cursor × Cursor) → Bool
unfolding find_previous_matching_angle_bracket group_text
unmatched_greater clean linenum none = false
unmatched_greater clean linenum (some m) =
    not (find_previous_matching_angle_bracket clean linenum (group_text 1 m.1))

-- << and, where it is spaced and the line includes nothing, < and >
unfoldable pub angle_events : Text → CleansedLines → ℕ → Text → List Event
unfolding shifts_left matches replace unmatched_less unmatched_greater re_search
angle_events filename clean linenum line =
    let reduced_line = replace line (codes "->") [] in
    if shifts_left (re_search re_shift_left line)
    then complain filename linenum true "whitespace/operators" 3 (codes "Missing spaces around <<")
    else if not (matches re_preprocessor_include line)
    then calls (
        complain filename linenum (unmatched_less clean linenum (re_search re_less reduced_line))
          "whitespace/operators" 3 (codes "Missing spaces around <")
        ∷ complain filename linenum
            (unmatched_greater clean linenum (re_search re_greater reduced_line))
            "whitespace/operators" 3 (codes "Missing spaces around >")
        ∷ [])
    else []

-- >>[a-zA-Z_]
abbrev re_shift_right : Regex
re_shift_right = cat (str ">>" ∷ cls (λ c. is_lower c || (is_upper c || c == b'_')) ∷ [])

-- (!\s|~\s|[\s]--[\s;]|[\s]\+\+[\s;])
abbrev re_unary : Regex
re_unary = group 1 (
    alt (cat (one b'!' ∷ space ∷ [])) (
      alt (cat (one b'~' ∷ space ∷ [])) (
        alt (cat (space ∷ str "--" ∷ cls (λ c. is_space c || c == b';') ∷ []))
          (cat (space ∷ str "++" ∷ cls (λ c. is_space c || c == b';') ∷ [])))))

unfoldable pub operator_events : Text → CleansedLines → ℕ → Text → List Event
unfolding found re_search group_events angle_events
operator_events filename clean linenum line = calls (
    complain filename linenum (found re_assignment line && not (found re_condition line))
      "whitespace/operators" 4 (codes "Missing spaces around =")
    ∷ group_events filename linenum 1 "whitespace/operators" 3 (codes "Missing spaces around ")
        (re_search re_comparison line)
    ∷ angle_events filename clean linenum line
    ∷ complain filename linenum (found re_shift_right line) "whitespace/operators" 3
        (codes "Missing spaces around >>")
    ∷ group_events filename linenum 1 "whitespace/operators" 4 (codes "Extra space for operator ")
        (re_search re_unary line)
    ∷ [])
