-- ===== src/Lint/Language/Calls.antt =====
-- The calls of C functions that `CheckLanguage` of tools/cpplint.py looks for.
use optimer.Prelude.{List, Option, [], leb, none, not, some, true, ℕ, ◌&&◌, ◌++◌, ◌||◌, ◌∷◌}
use optimer.Text.{Text, codes, is_digit, text_eq}
use optimer.Regex.{
  Cursor, Regex, alt, any_case, bol, boundary, cat, cls, eol, found, group, group_text, is_word,
  matches, none_of, one, one_of, opt, plus, re_match, re_search, spaces, star, str, words_of,
}
use optimer.Lint.Event.{Event, calls, complain}
use optimer.Lint.TextInside.{Inside, assertion_failed, get_text_inside, inside_text, not_inside}

-- snprintf\s*\(([^,]*),\s*([0-9]*)\s*,
abbrev re_snprintf : Regex
re_snprintf = cat (
    str "snprintf"
    ∷ spaces
    ∷ one b'('
    ∷ group 1 (star (cls (none_of (codes ","))))
    ∷ one b','
    ∷ spaces
    ∷ group 2 (star (cls (λ c. is_digit c)))
    ∷ spaces
    ∷ one b','
    ∷ [])

-- \bsprintf\b
abbrev re_sprintf : Regex
re_sprintf = cat (boundary ∷ str "sprintf" ∷ boundary ∷ [])

-- \b(strcpy|strcat)\b
abbrev re_strcpy : Regex
re_strcpy =
    cat (boundary ∷ group 1 (words_of (codes "strcpy" ∷ codes "strcat" ∷ [])) ∷ boundary ∷ [])

-- \bsscanf\b
abbrev re_sscanf : Regex
re_sscanf = cat (boundary ∷ str "sscanf" ∷ boundary ∷ [])

-- \boperator\s*&\s*\(\s*\)
abbrev re_unary_and : Regex
re_unary_and =
    cat (boundary ∷ str "operator" ∷ spaces ∷ one b'&' ∷ spaces ∷ one b'(' ∷ spaces ∷ one b')' ∷ [])

-- \}\s*if\s*\(
abbrev re_close_if : Regex
re_close_if = cat (one b'}' ∷ spaces ∷ str "if" ∷ spaces ∷ one b'(' ∷ [])

-- (?i)\b(string)?printf\s*\(
abbrev re_printf_start : Regex
re_printf_start =
    cat (boundary ∷ opt (group 1 (any_case "string")) ∷ any_case "printf" ∷ spaces ∷ one b'(' ∷ [])

-- ([\w.\->()]+)$
abbrev re_printf_args : Regex
re_printf_args = cat (group 1 (plus (cls (λ c. is_word c || one_of (codes ".->()") c))) ∷ eol ∷ [])

-- (?i)\b((?:string)?printf)\s*\(
abbrev re_printf_name : Regex
re_printf_name = cat (
    boundary
    ∷ group 1 (cat (opt (any_case "string") ∷ any_case "printf" ∷ []))
    ∷ spaces
    ∷ one b'('
    ∷ [])

-- memset\s*\(([^,]*),\s*([^,]*),\s*0\s*\)
abbrev re_memset : Regex
re_memset = cat (
    str "memset"
    ∷ spaces
    ∷ one b'('
    ∷ group 1 (star (cls (none_of (codes ","))))
    ∷ one b','
    ∷ spaces
    ∷ group 2 (star (cls (none_of (codes ","))))
    ∷ one b','
    ∷ spaces
    ∷ one b'0'
    ∷ spaces
    ∷ one b')'
    ∷ [])

-- ^''|-?[0-9]+|0x[0-9A-Fa-f]$
abbrev re_memset_value : Regex
re_memset_value = alt (cat (bol ∷ str "''" ∷ [])) (
    alt (cat (opt (one b'-') ∷ plus (cls (λ c. is_digit c)) ∷ [])) (
      cat (
        str "0x"
        ∷ cls (λ c. is_digit c || ((leb b'A' c && leb c b'F') || (leb b'a' c && leb c b'f')))
        ∷ eol
        ∷ [])))

snprintf_events : Text → ℕ → Option (Cursor × Cursor) → List Event
unfolding group_text text_eq
snprintf_events filename linenum none = []
snprintf_events filename linenum (some m) =
    complain filename linenum (not (text_eq (group_text 2 m.1) (codes "0"))) "runtime/printf" 3 (
      codes "If you can, use sizeof("
      ++ (group_text 1 m.1
          ++ (codes ") instead of " ++ (group_text 2 m.1 ++ codes " as the 2nd arg to snprintf."))))

strcpy_events : Text → ℕ → Option (Cursor × Cursor) → List Event
unfolding group_text
strcpy_events filename linenum none = []
strcpy_events filename linenum (some m) =
    complain filename linenum true "runtime/printf" 4
      (codes "Almost always, snprintf is better than " ++ group_text 1 m.1)

-- the first group of the search, if the pattern is found
found_text : Option (Cursor × Cursor) → Text
unfolding group_text
found_text none = []
found_text (some m) = group_text 1 m.1

format_events : Text → ℕ → Text → Option Cursor → List Event
unfolding group_text text_eq found_text re_search
format_events filename linenum line none = []
format_events filename linenum line (some m) =
    complain filename linenum (not (text_eq (group_text 1 m) (codes "__VA_ARGS__")))
      "runtime/printf" 4
      (codes "Potential format string bug. Do "
        ++ (found_text (re_search re_printf_name line)
            ++ (codes "(\"%s\", " ++ (group_text 1 m ++ codes ") instead."))))

-- An empty text inside of the parentheses is no match either. The pattern of the call ends in a
-- bracket, so its assertions hold.
printf_events : Text → ℕ → Text → Inside → List Event
unfolding format_events re_match
printf_events filename linenum line assertion_failed = []
printf_events filename linenum line not_inside = []
printf_events filename linenum line (inside_text printf_args) =
    format_events filename linenum line (re_match re_printf_args printf_args)

memset_events : Text → ℕ → Option (Cursor × Cursor) → List Event
unfolding group_text matches
memset_events filename linenum none = []
memset_events filename linenum (some m) =
    complain filename linenum (not (matches re_memset_value (group_text 2 m.1))) "runtime/memset" 4
      (codes "Did you mean \"memset("
        ++ (group_text 1 m.1 ++ (codes ", 0, " ++ (group_text 2 m.1 ++ codes ")\"?"))))

unfoldable pub check_calls : Text → ℕ → Text → List Event
unfolding found re_search snprintf_events strcpy_events printf_events get_text_inside memset_events
check_calls filename linenum line = calls (
    snprintf_events filename linenum (re_search re_snprintf line)
    ∷ complain filename linenum (found re_sprintf line) "runtime/printf" 5
        (codes "Never use sprintf.  Use snprintf instead.")
    ∷ strcpy_events filename linenum (re_search re_strcpy line)
    ∷ complain filename linenum (found re_sscanf line) "runtime/printf" 1
        (codes "sscanf can be ok, but is slow and can overflow buffers.")
    ∷ complain filename linenum (found re_unary_and line) "runtime/operator" 4
        (codes "Unary operator& is dangerous.  Do not use it.")
    ∷ complain filename linenum (found re_close_if line) "readability/braces" 4
        (codes "Did you mean \"else if\"? If not, start a new line for \"if\".")
    ∷ printf_events filename linenum line (get_text_inside line re_printf_start)
    ∷ memset_events filename linenum (re_search re_memset line)
    ∷ [])
