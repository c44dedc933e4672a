-- ===== src/Lint/Language/Casts.antt =====
-- Casts: `CheckCStyleCast` of tools/cpplint.py and the casts that `CheckLanguage` looks for.
use mathlib.Core.List.{reverse}
use optimer.Prelude.{
  Bool, List, Option, String, [], false, if◌then◌else◌, none, not, some, suc, true, zero, ℕ, ◌&&◌,
  ◌++◌, ◌==◌, ◌||◌, ◌∷◌,
}
use optimer.Text.{Text, codes, contains, ends_with, is_empty, is_space, text_eq}
use optimer.Regex.{
  Cursor, Regex, alt, any_code, bol, boundary, cat, cls, digit, eol, found, group, group_of,
  group_text, is_word, matches, none_of, one, opt, plus, re_match, re_search, space, spaces, star,
  str, word, words_of,
}
use optimer.Lint.Event.{Event, calls, complain}
use optimer.Lint.Cleanse.{CleansedLines, line_at}

-- .*sizeof\s*$
abbrev re_sizeof : Regex
re_sizeof = cat (star any_code ∷ str "sizeof" ∷ spaces ∷ eol ∷ [])

-- \s*(\)|=|(const)?\s*(;|\{|throw\(\)|>))
abbrev re_function : Regex
re_function = cat (
    spaces
    ∷ group 1 (
        alt (one b')') (
          alt (one b'=') (
            cat (
              opt (group 2 (str "const"))
              ∷ spaces
              ∷ group 3 (words_of (codes ";" ∷ codes "{" ∷ codes "throw()" ∷ codes ">" ∷ []))
              ∷ []))))
    ∷ [])

-- whether a parameter with no name is reported for what follows the parentheses
unnamed : Text → Cursor → Bool
unfolding group_text text_eq contains
unnamed raw_line m =
    is_empty (group_text 3 m)
    || (text_eq (group_text 3 m) (codes ";")
        || (not (contains raw_line (codes "MockCallback<"))
            && not (contains raw_line (codes "/*"))))

function_events : Text → ℕ → Text → Text → Text → Option Cursor → List Event
unfolding unnamed
function_events filename linenum raw_line cast_type type none =
    complain filename linenum true "readability/casting" 4 (
      codes "Using C-style cast.  Use "
      ++ (cast_type ++ (codes "<" ++ (type ++ codes ">(...) instead"))))
function_events filename linenum raw_line cast_type type (some m) =
    complain filename linenum (unnamed raw_line m) "readability/function" 3
      (codes "All parameters should be named in a function")

-- Behind a match, whose first group begins one code behind the match: the line in front of the match
-- and behind it.
cast_events : Text → ℕ → Text → Text → Option (Cursor × Cursor) → Bool × List Event
unfolding matches re_match ends_with function_events group_text
cast_events filename linenum raw_line cast_type none = (false, [])
cast_events filename linenum raw_line cast_type (some m) =
    let front = reverse m.0.before in
    if matches re_sizeof front
    then (
      true,
      complain filename linenum true "runtime/sizeof" 1
          (codes "Using sizeof(type).  Use sizeof(varname) instead if possible"),
    )
    else if ends_with front (codes " operator++") || ends_with front (codes " operator--")
    then (false, [])
    else (
      true,
      function_events filename linenum raw_line cast_type (group_text 1 m.1)
          (re_match re_function m.1.rest),
    )

-- for a pattern that begins with a parenthesis and then a group
unfoldable pub check_c_style_cast : Text → ℕ → Text → Text → Text → Regex → Bool × List Event
unfolding re_search cast_events
check_c_style_cast filename linenum line raw_line cast_type pattern =
    cast_events filename linenum raw_line cast_type (re_search pattern line)

-- \((int|float|double|bool|char|u?int(16|32|64))\)
abbrev re_basic_cast : Regex
re_basic_cast = cat (
    one b'('
    ∷ group 1 (
        alt (str "int") (
          alt (str "float") (
            alt (str "double") (
              alt (str "bool") (
                alt (str "char") (
                  cat (
                    opt (one b'u')
                    ∷ str "int"
                    ∷ group 2 (words_of (codes "16" ∷ codes "32" ∷ codes "64" ∷ []))
                    ∷ [])))))))
    ∷ one b')'
    ∷ [])

-- \((char\s?\*+\s?)\)\s*"
abbrev re_string_cast : Regex
re_string_cast = cat (
    one b'('
    ∷ group 1 (cat (str "char" ∷ opt space ∷ plus (one b'*') ∷ opt space ∷ []))
    ∷ one b')'
    ∷ spaces
    ∷ one 34
    ∷ [])

-- \((\w+\s?\*+\s?)\)
abbrev re_pointer_cast : Regex
re_pointer_cast = cat (
    one b'('
    ∷ group 1 (cat (plus word ∷ opt space ∷ plus (one b'*') ∷ opt space ∷ []))
    ∷ one b')'
    ∷ [])

-- (&\([^)]+\)[\w(])|(&(static|dynamic|reinterpret)_cast\b)
abbrev re_address_of_cast : Regex
re_address_of_cast =
    alt
      (group 1 (
        cat (
          str "&("
          ∷ plus (cls (none_of (codes ")")))
          ∷ one b')'
          ∷ cls (λ c. is_word c || c == b'(')
          ∷ [])))
      (group 2 (
        cat (
          one b'&'
          ∷ group 3 (words_of (codes "static" ∷ codes "dynamic" ∷ codes "reinterpret" ∷ []))
          ∷ str "_cast"
          ∷ boundary
          ∷ [])))

-- The second check is for other than string constants.
unfoldable pub cast_checks : Text → ℕ → Text → Text → List Event
unfolding check_c_style_cast found
cast_checks filename linenum line raw_line =
    let cast = λ (type : String) (pattern : Regex).
      check_c_style_cast filename linenum line raw_line (codes type) pattern in
    let strings = cast "const_cast" re_string_cast in
    calls (
      (cast "static_cast" re_basic_cast).1
      ∷ strings.1
      ∷ (if strings.0 then [] else (cast "reinterpret_cast" re_pointer_cast).1)
      ∷ complain filename linenum (found re_address_of_cast line) "runtime/casting" 4 (
          codes
            "Are you taking an address of a cast?  This is dangerous: could be a temp var.  Take the address before doing the cast, rather than after")
      ∷ [])

-- (\bnew\s+)?\b(int|float|double|bool|char|int32|uint32|int64|uint64)\([^)]
abbrev re_conversion : Regex
re_conversion = cat (
    opt (group 1 (cat (boundary ∷ str "new" ∷ plus space ∷ [])))
    ∷ boundary
    ∷ group 2 (
        words_of (
          codes "int"
          ∷ codes "float"
          ∷ codes "double"
          ∷ codes "bool"
          ∷ codes "char"
          ∷ codes "int32"
          ∷ codes "uint32"
          ∷ codes "int64"
          ∷ codes "uint64"
          ∷ []))
    ∷ one b'('
    ∷ cls (none_of (codes ")"))
    ∷ [])

-- ^\s*MOCK_(CONST_)?METHOD\d+(_T)?\(
abbrev re_mock_method : Regex
re_mock_method = cat (
    bol
    ∷ spaces
    ∷ str "MOCK_"
    ∷ opt (group 1 (str "CONST_"))
    ∷ str "METHOD"
    ∷ plus digit
    ∷ opt (group 2 (str "_T"))
    ∷ one b'('
    ∷ [])

-- ^\s*MockCallback<.*>
abbrev re_mock_callback : Regex
re_mock_callback = cat (bol ∷ spaces ∷ str "MockCallback<" ∷ star any_code ∷ one b'>' ∷ [])

-- ^\s*MOCK_(CONST_)?METHOD\d+(_T)?\(\S+,\s*$
abbrev re_mock_above : Regex
re_mock_above = cat (
    bol
    ∷ spaces
    ∷ str "MOCK_"
    ∷ opt (group 1 (str "CONST_"))
    ∷ str "METHOD"
    ∷ plus digit
    ∷ opt (group 2 (str "_T"))
    ∷ one b'('
    ∷ plus (cls (λ c. not (is_space c)))
    ∷ one b','
    ∷ spaces
    ∷ eol
    ∷ [])

-- whether the line above is the beginning of a mocked method
mocked_above : CleansedLines → ℕ → Bool
unfolding matches
mocked_above clean zero = false
mocked_above clean (suc i) = matches re_mock_above (line_at clean.elided i)

abbrev is_none : Option Text → Bool
is_none none = true
is_none (some t) = false

conversion_events : Text → CleansedLines → ℕ → Text → Option (Cursor × Cursor) → List Event
unfolding matches mocked_above group_text group_of
conversion_events filename clean linenum line none = []
conversion_events filename clean linenum line (some m) =
    complain filename linenum
      (is_none (group_of 1 m.1.groups)
        && (not (matches re_mock_method line || matches re_mock_callback line)
            && not (mocked_above clean linenum)))
      "readability/casting" 4
      (codes "Using deprecated casting style.  Use static_cast<"
        ++ (group_text 2 m.1 ++ codes ">(...) instead"))

unfoldable pub check_conversion : Text → CleansedLines → ℕ → Text → List Event
unfolding conversion_events re_search
check_conversion filename clean linenum line =
    conversion_events filename clean linenum line (re_search re_conversion line)
