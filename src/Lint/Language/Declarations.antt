-- ===== src/Lint/Language/Declarations.antt =====
-- References, strings and basic types, in `CheckLanguage` of tools/cpplint.py.
use optimer.Prelude.{
  List, Option, [], if◌then◌else◌, length, ltb, none, not, some, true, ℕ, ◌&&◌, ◌++◌, ◌+◌, ◌==◌,
  ◌||◌, ◌∷◌,
}
use optimer.Text.{Text, codes, is_digit, is_lower, is_upper}
use optimer.Regex.{
  Cursor, Regex, alt, any_code, boundary, cat, cls, eol, eps, found, group, group_text, is_word,
  matches, none_of, not_ahead, one, one_of, opt, plus, re_finditer, re_search, space, spaces, star,
  str, word,
}
use optimer.Lint.Event.{Event, complain}

-- \([^()]*\b(?:[\w:]|<[^()]*>)+(\s?&|&\s?)\w+
abbrev re_reference : Regex
re_reference = cat (
    one b'('
    ∷ star (cls (none_of (codes "()")))
    ∷ boundary
    ∷ plus (
        alt (cls (λ c. is_word c || c == b':'))
          (cat (one b'<' ∷ star (cls (none_of (codes "()"))) ∷ one b'>' ∷ [])))
    ∷ group 1 (alt (cat (opt space ∷ one b'&' ∷ [])) (cat (one b'&' ∷ opt space ∷ [])))
    ∷ plus word
    ∷ [])

-- \([^()]*\bconst\s+(?:typename\s+)?(?:struct\s+)?(?:[\w:]|<[^()]*>)+(\s?&|&\s?)\w+
abbrev re_const_reference : Regex
re_const_reference = cat (
    one b'('
    ∷ star (cls (none_of (codes "()")))
    ∷ boundary
    ∷ str "const"
    ∷ plus space
    ∷ opt (cat (str "typename" ∷ plus space ∷ []))
    ∷ opt (cat (str "struct" ∷ plus space ∷ []))
    ∷ plus (
        alt (cls (λ c. is_word c || c == b':'))
          (cat (one b'<' ∷ star (cls (none_of (codes "()"))) ∷ one b'>' ∷ [])))
    ∷ group 1 (alt (cat (opt space ∷ one b'&' ∷ [])) (cat (one b'&' ∷ opt space ∷ [])))
    ∷ plus word
    ∷ [])

-- \([^()]*\b(?:[\w:]|<[^()]*>)+\s+const(\s?&|&\s?)[\w]+
abbrev re_reference_to_const : Regex
re_reference_to_const = cat (
    one b'('
    ∷ star (cls (none_of (codes "()")))
    ∷ boundary
    ∷ plus (
        alt (cls (λ c. is_word c || c == b':'))
          (cat (one b'<' ∷ star (cls (none_of (codes "()"))) ∷ one b'>' ∷ [])))
    ∷ plus space
    ∷ str "const"
    ∷ group 1 (alt (cat (opt space ∷ one b'&' ∷ [])) (cat (one b'&' ∷ opt space ∷ [])))
    ∷ plus (cls (λ c. is_word c))
    ∷ [])

-- (for|swap|Swap|operator[<>][<>])\s*\(\s*(?:(?:typename\s*)?[\w:]|<.*>)+\s*&
abbrev re_allowed_reference : Regex
re_allowed_reference = cat (
    group 1 (
      alt (str "for") (
        alt (str "swap") (
          alt (str "Swap")
            (cat (str "operator" ∷ cls (one_of (codes "<>")) ∷ cls (one_of (codes "<>")) ∷ [])))))
    ∷ spaces
    ∷ one b'('
    ∷ spaces
    ∷ plus (
        alt
          (cat (opt (cat (str "typename" ∷ spaces ∷ [])) ∷ cls (λ c. is_word c || c == b':') ∷ []))
          (cat (one b'<' ∷ star any_code ∷ one b'>' ∷ [])))
    ∷ spaces
    ∷ one b'&'
    ∷ [])

-- line.split('{', 1)[0]
up_to_brace : Text → Text
up_to_brace [] = []
up_to_brace (c ∷ s) = let rest = up_to_brace s in if c == b'{' then [] else c ∷ rest

-- len(re.findall(r, s))
abbrev occurrences : Regex → Text → ℕ
occurrences r s = length (re_finditer r s)

-- more references than const references
unfoldable pub check_references : Text → ℕ → Text → List Event
unfolding up_to_brace re_finditer found
check_references filename linenum line =
    let fnline = up_to_brace line in
    complain filename linenum
      (ltb (occurrences re_const_reference fnline + occurrences re_reference_to_const fnline)
          (occurrences re_reference fnline)
        && not (found re_allowed_reference fnline))
      "runtime/references" 2
      (codes "Is this a non-const reference? If so, make const or use a pointer.")

-- ((?:|static +)(?:|const +))string +([a-zA-Z0-9_:]+)\b(.*)
abbrev pub re_string_global : Regex
re_string_global = cat (
    group 1 (
      cat (
        alt eps (cat (str "static" ∷ plus (one b' ') ∷ []))
        ∷ alt eps (cat (str "const" ∷ plus (one b' ') ∷ []))
        ∷ []))
    ∷ str "string"
    ∷ plus (one b' ')
    ∷ group 2
        (plus (cls (λ c. is_lower c || (is_upper c || (is_digit c || one_of (codes "_:") c)))))
    ∷ boundary
    ∷ group 3 (star any_code)
    ∷ [])

-- \s*(<.*>)?(::[a-zA-Z0-9_]+)?\s*\(([^"]|$)
abbrev re_function_tail : Regex
re_function_tail = cat (
    spaces
    ∷ opt (group 1 (cat (one b'<' ∷ star any_code ∷ one b'>' ∷ [])))
    ∷ opt (
        group 2 (
          cat (
            str "::"
            ∷ plus (cls (λ c. is_lower c || (is_upper c || (is_digit c || c == b'_'))))
            ∷ [])))
    ∷ spaces
    ∷ one b'('
    ∷ group 3 (alt (cls (none_of (codes "\""))) eol)
    ∷ [])

unfoldable pub string_events : Text → ℕ → Option Cursor → List Event
unfolding matches group_text
string_events filename linenum none = []
string_events filename linenum (some m) =
    complain filename linenum (not (matches re_function_tail (group_text 3 m))) "runtime/string" 4 (
      codes "For a static/global string constant, use a C style string instead: \""
      ++ (group_text 1 m ++ (codes "char " ++ (group_text 2 m ++ codes "[]\"."))))

-- \bshort port\b
abbrev re_short_port : Regex
re_short_port = cat (boundary ∷ str "short port" ∷ boundary ∷ [])

-- \bunsigned short port\b
abbrev re_unsigned_short_port : Regex
re_unsigned_short_port = cat (boundary ∷ str "unsigned short port" ∷ boundary ∷ [])

-- \b(short|long(?! +double)|long long)\b
abbrev re_basic_type : Regex
re_basic_type = cat (
    boundary
    ∷ group 1 (
        alt (str "short") (
          alt (cat (str "long" ∷ not_ahead (cat (plus (one b' ') ∷ str "double" ∷ [])) ∷ []))
            (str "long long")))
    ∷ boundary
    ∷ [])

basic_type_events : Text → ℕ → Option (Cursor × Cursor) → List Event
unfolding group_text
basic_type_events filename linenum none = []
basic_type_events filename linenum (some m) =
    complain filename linenum true "runtime/int" 4
      (codes "Use int16/int64/etc, rather than the C type " ++ group_text 1 m.1)

unfoldable pub check_basic_types : Text → ℕ → Text → List Event
unfolding found re_search basic_type_events
check_basic_types filename linenum line =
    if found re_short_port line
    then complain filename linenum (not (found re_unsigned_short_port line)) "runtime/int" 4
        (codes "Use \"unsigned short\" for ports, not \"short\"")
    else basic_type_events filename linenum (re_search re_basic_type line)
