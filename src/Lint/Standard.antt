-- ===== src/Lint/Standard.antt =====
-- `CheckForNonStandardConstructs` of tools/cpplint.py.
use optimer.Text.Unicode.{unicode_strip}
use optimer.Prelude.{
  Bool, List, Option, [], false, if◌then◌else◌, none, not, some, ℕ, ◌&&◌, ◌==◌, ◌||◌, ◌∷◌,
}
use optimer.Text.{Text, codes, is_space, last_piece, replace, text_eq}
use optimer.Regex.{
  Cursor, Regex, alt, any_code, bol, boundary, cat, cls, digit, found, group, group_text, lit,
  matches, none_of, one, one_of, opt, plus, re_match, re_split, seq, space, spaces, star, str, word,
  words_of,
}
use optimer.Lint.Event.{Event, calls, complain}
use optimer.Lint.Cleanse.{CleansedLines, line_at}
use optimer.Lint.Nesting.{BlockInfo, Kind, NestingState, class_info, innermost_class}

-- printf\s*\(.*".*%[-+ ]?\d*q
abbrev re_percent_q : Regex
re_percent_q = cat (
    str "printf"
    ∷ spaces
    ∷ one b'('
    ∷ star any_code
    ∷ one 34
    ∷ star any_code
    ∷ one b'%'
    ∷ opt (cls (one_of (codes "-+ ")))
    ∷ star digit
    ∷ one b'q'
    ∷ [])

-- printf\s*\(.*".*%\d+\$
abbrev re_percent_n : Regex
re_percent_n = cat (
    str "printf"
    ∷ spaces
    ∷ one b'('
    ∷ star any_code
    ∷ one 34
    ∷ star any_code
    ∷ one b'%'
    ∷ plus digit
    ∷ one b'$'
    ∷ [])

-- ("|\').*\\(%|\[|\(|{)
abbrev re_undefined_escape : Regex
re_undefined_escape = cat (
    group 1 (words_of (codes "\"" ∷ codes "'" ∷ []))
    ∷ star any_code
    ∷ one 92
    ∷ group 2 (words_of (codes "%" ∷ codes "[" ∷ codes "(" ∷ codes "{" ∷ []))
    ∷ [])

-- \b(const|volatile|void|char|short|int|long|float|double|signed|unsigned|schar|u?int8|u?int16|u?int32|u?int64)\s+(register|static|extern|typedef)\b
abbrev re_storage_class : Regex
re_storage_class = cat (
    boundary
    ∷ group 1 (
        alt (str "const") (
          alt (str "volatile") (
            alt (str "void") (
              alt (str "char") (
                alt (str "short") (
                  alt (str "int") (
                    alt (str "long") (
                      alt (str "float") (
                        alt (str "double") (
                          alt (str "signed") (
                            alt (str "unsigned") (
                              alt (str "schar") (
                                alt (cat (opt (one b'u') ∷ str "int8" ∷ [])) (
                                  alt (cat (opt (one b'u') ∷ str "int16" ∷ [])) (
                                    alt (cat (opt (one b'u') ∷ str "int32" ∷ []))
                                      (cat (opt (one b'u') ∷ str "int64" ∷ [])))))))))))))))))
    ∷ plus space
    ∷ group 2 (words_of (codes "register" ∷ codes "static" ∷ codes "extern" ∷ codes "typedef" ∷ []))
    ∷ boundary
    ∷ [])

-- \s*#\s*endif\s*[^/\s]+
abbrev re_endif_text : Regex
re_endif_text = cat (
    spaces
    ∷ one b'#'
    ∷ spaces
    ∷ str "endif"
    ∷ spaces
    ∷ plus (cls (λ c. not (is_space c || c == b'/')))
    ∷ [])

-- \s*class\s+(\w+\s*::\s*)+\w+\s*;
abbrev re_inner_declaration : Regex
re_inner_declaration = cat (
    spaces
    ∷ str "class"
    ∷ plus space
    ∷ plus (group 1 (cat (plus word ∷ spaces ∷ str "::" ∷ spaces ∷ [])))
    ∷ plus word
    ∷ spaces
    ∷ one b';'
    ∷ [])

-- (\w+|[+-]?\d+(\.\d*)?)\s*(<|>)\?=?\s*(\w+|[+-]?\d+)(\.\d*)?
abbrev re_min_max : Regex
re_min_max = cat (
    group 1 (
      alt (plus word) (
        cat (
          opt (cls (one_of (codes "+-")))
          ∷ plus digit
          ∷ opt (group 2 (cat (one b'.' ∷ star digit ∷ [])))
          ∷ [])))
    ∷ spaces
    ∷ group 3 (words_of (codes "<" ∷ codes ">" ∷ []))
    ∷ one b'?'
    ∷ opt (one b'=')
    ∷ spaces
    ∷ group 4 (alt (plus word) (cat (opt (cls (one_of (codes "+-"))) ∷ plus digit ∷ [])))
    ∷ opt (group 5 (cat (one b'.' ∷ star digit ∷ [])))
    ∷ [])

-- ^\s*const\s*string\s*&\s*\w+\s*;
abbrev re_string_member : Regex
re_string_member = cat (
    bol
    ∷ spaces
    ∷ str "const"
    ∷ spaces
    ∷ str "string"
    ∷ spaces
    ∷ one b'&'
    ∷ spaces
    ∷ plus word
    ∷ spaces
    ∷ one b';'
    ∷ [])

-- \s+(?:inline\s+)?%s\s*\(([^,()]+)\)
re_one_argument : Text → Regex
re_one_argument name = cat (
    plus space
    ∷ opt (seq (str "inline") (plus space))
    ∷ lit name
    ∷ spaces
    ∷ one b'('
    ∷ group 1 (plus (cls (none_of (codes ",()"))))
    ∷ one b')'
    ∷ [])

-- (const\s+)?%s\s*(?:<\w+>\s*)?&
re_copied : Text → Regex
re_copied name = cat (
    opt (group 1 (seq (str "const") (plus space)))
    ∷ lit name
    ∷ spaces
    ∷ opt (cat (one b'<' ∷ plus word ∷ one b'>' ∷ spaces ∷ []))
    ∷ one b'&'
    ∷ [])

-- the name without the qualifiers in front
abbrev unqualified : Text → Text
unqualified name = last_piece (re_split (str "::") name)

-- whether the argument asks for `explicit`: it is neither void nor a reference to the class
needs_explicit : Text → Option Cursor → Bool
unfolding text_eq matches unicode_strip re_copied group_text
needs_explicit name none = false
needs_explicit name (some args) =
    not (text_eq (group_text 1 args) (codes "void"))
    && not (matches (re_copied name) (unicode_strip (group_text 1 args)))

explicit_events : Text → ℕ → Text → Kind → List Event
unfolding needs_explicit re_match re_one_argument re_split
explicit_events filename linenum line (class_info name start derived access end) =
    complain filename linenum
      (needs_explicit (unqualified name) (re_match (re_one_argument (unqualified name)) line))
      "runtime/explicit" 5 (codes "Single-argument constructors should be marked explicit.")
explicit_events filename linenum line _ = []

-- what is checked inside of a class whose head is complete
class_events : Text → ℕ → Text → Option BlockInfo → List Event
unfolding explicit_events
class_events filename linenum line none = []
class_events filename linenum line (some b) =
    if b.seen_open_brace then explicit_events filename linenum line b.kind else []

unfoldable pub check_for_non_standard_constructs :
    Text → CleansedLines → ℕ → NestingState → List Event
unfolding found matches replace class_events innermost_class
check_for_non_standard_constructs filename clean linenum nesting =
    let commented = line_at clean.lines linenum in
    let unescaped = replace commented (codes "\\\\") [] in
    let line = line_at clean.elided linenum in
    calls (
      complain filename linenum (found re_percent_q commented) "runtime/printf_format" 3
        (codes "%q in format strings is deprecated.  Use %ll instead.")
      ∷ complain filename linenum (found re_percent_n commented) "runtime/printf_format" 2
          (codes "%N$ formats are unconventional.  Try rewriting to avoid them.")
      ∷ complain filename linenum (found re_undefined_escape unescaped) "build/printf_format" 3
          (codes "%, [, (, and { are undefined character escapes.  Unescape them.")
      ∷ complain filename linenum (found re_storage_class line) "build/storage_class" 5
          (codes "Storage class (static, extern, typedef, etc) should be first.")
      ∷ complain filename linenum (matches re_endif_text line) "build/endif_comment" 5
          (codes "Uncommented text after #endif is non-standard.  Use a comment.")
      ∷ complain filename linenum (matches re_inner_declaration line) "build/forward_decl" 5
          (codes "Inner-style forward declarations are invalid.  Remove this line.")
      ∷ complain filename linenum (found re_min_max line) "build/deprecated" 3
          (codes ">? and <? (max and min) operators are non-standard and deprecated.")
      ∷ complain filename linenum (found re_string_member line) "runtime/member_string_references" 2
          (codes
            "const string& members are dangerous. It is much better to use alternatives, such as pointers or simple constants.")
      ∷ class_events filename linenum line (innermost_class nesting)
      ∷ [])
