-- ===== src/Lint/Language/Arrays.antt =====
-- Sizes of arrays and the macros at the end of a class, in `CheckLanguage` of tools/cpplint.py.

use mathlib.Core.List.{reverse}
use optimer.Prelude.{
  Bool, List, Option, [], false, if◌then◌else◌, leb, ltb, none, not, some, true, ℕ, ◌&&◌, ◌++◌, ◌+◌,
  ◌==◌, ◌||◌, ◌∷◌,
}
use optimer.Text.{
  Text, codes, contains, is_digit, is_empty, is_lower, is_space, is_upper, starts_with, text_eq,
}
use optimer.Regex.{
  Cursor, Regex, alt, any_code, bol, cat, cls, digit, eol, found, group, group_text, is_word,
  matches, one, one_of, opt, plus, re_split, space, spaces, star, str, word, words_of,
}
use optimer.Lint.Event.{Event, complain}
use optimer.Lint.Cleanse.{CleansedLines, line_at}

-- \s*(.+::)?(\w+) [a-z]\w*\[(.+)];
abbrev pub re_array : Regex
re_array = cat (
    spaces
    ∷ opt (group 1 (cat (plus any_code ∷ str "::" ∷ [])))
    ∷ group 2 (plus word)
    ∷ one b' '
    ∷ cls (λ c. is_lower c)
    ∷ star word
    ∷ one b'['
    ∷ group 3 (plus any_code)
    ∷ str "];"
    ∷ [])

-- \s|\+|\-|\*|\/|<<|>>]
abbrev re_size_operator : Regex
re_size_operator =
    alt space (
      alt (one b'+')
        (alt (one b'-') (alt (one b'*') (alt (one b'/') (alt (str "<<") (str ">>]"))))))

-- sizeof\(.+\)
abbrev re_sizeof_call : Regex
re_sizeof_call = cat (str "sizeof(" ∷ plus any_code ∷ one b')' ∷ [])

-- arraysize\(\w+\)
abbrev re_arraysize_call : Regex
re_arraysize_call = cat (str "arraysize(" ∷ plus word ∷ one b')' ∷ [])

-- \d+
abbrev re_decimal : Regex
re_decimal = plus digit

-- 0[xX][0-9a-fA-F]+
abbrev re_hexadecimal : Regex
re_hexadecimal = cat (
    one b'0'
    ∷ cls (one_of (codes "xX"))
    ∷ plus (cls (λ c. is_digit c || ((leb b'a' c && leb c b'f') || (leb b'A' c && leb c b'F'))))
    ∷ [])

-- k[A-Z0-9]\w*
abbrev re_constant_name : Regex
re_constant_name = cat (one b'k' ∷ cls (λ c. is_upper c || is_digit c) ∷ star word ∷ [])

-- (.+::)?k[A-Z0-9]\w*
abbrev re_qualified_constant : Regex
re_qualified_constant = cat (
    opt (group 1 (cat (plus any_code ∷ str "::" ∷ [])))
    ∷ one b'k'
    ∷ cls (λ c. is_upper c || is_digit c)
    ∷ star word
    ∷ [])

-- (.+::)?[A-Z][A-Z0-9_]*
abbrev re_macro_constant : Regex
re_macro_constant = cat (
    opt (group 1 (cat (plus any_code ∷ str "::" ∷ [])))
    ∷ cls (λ c. is_upper c)
    ∷ star (cls (λ c. is_upper c || (is_digit c || c == b'_')))
    ∷ [])

-- s.lstrip(c), for one code
strip_code : ℕ → Text → Text
strip_code c [] = []
strip_code c (x ∷ s) = let rest = strip_code c s in if x == c then rest else x ∷ s

-- tok.lstrip('(').rstrip(')')
without_parens : Text → Text
unfolding strip_code
without_parens tok = reverse (strip_code b')' (reverse (strip_code b'(' tok)))

is_constant_token : Text → Bool
unfolding matches
is_constant_token tok =
    is_empty tok
    || (matches re_decimal tok
        || (matches re_hexadecimal tok
            || (matches re_constant_name tok
                || (matches re_qualified_constant tok || matches re_macro_constant tok))))

-- The loop over the tokens of the size, with `skip_next`.
unfoldable pub constant_size : Bool → List Text → Bool
unfolding found without_parens is_constant_token starts_with
constant_size skip_next [] = true
constant_size true (tok ∷ toks) = constant_size false toks
constant_size false (tok ∷ toks) =
    let bare = without_parens tok in
    let rest = constant_size false toks in
    let behind_next = constant_size true toks in
    if (found re_sizeof_call tok || found re_arraysize_call tok) || is_constant_token bare
    then rest
    else if starts_with bare (codes "sizeof")
    then behind_next
    else false

unfoldable pub array_events : Text → ℕ → Option Cursor → List Event
unfolding group_text text_eq contains re_split constant_size
array_events filename linenum none = []
array_events filename linenum (some m) =
    complain filename linenum
      (not (text_eq (group_text 2 m) (codes "return"))
        && (not (text_eq (group_text 2 m) (codes "delete"))
            && (not (contains (group_text 3 m) (codes "]"))
                && not (constant_size false (re_split re_size_operator (group_text 3 m))))))
      "runtime/arrays" 1
      (codes
        "Do not use variable-length arrays.  Use an appropriately named ('k' followed by CamelCase) compile-time constant for the size.")

-- \s*(DISALLOW_(EVIL_CONSTRUCTORS|COPY_AND_ASSIGN|IMPLICIT_CONSTRUCTORS))\(.*\);$
abbrev pub re_disallow_last : Regex
re_disallow_last = cat (
    spaces
    ∷ group 1 (
        cat (
          str "DISALLOW_"
          ∷ group 2 (
              words_of (
                codes "EVIL_CONSTRUCTORS"
                ∷ codes "COPY_AND_ASSIGN"
                ∷ codes "IMPLICIT_CONSTRUCTORS"
                ∷ []))
          ∷ []))
    ∷ one b'('
    ∷ star any_code
    ∷ str ");"
    ∷ eol
    ∷ [])

-- ^\s*}[\w\*,\s]*;
abbrev re_class_end : Regex
re_class_end = cat (
    bol
    ∷ spaces
    ∷ one b'}'
    ∷ star (cls (λ c. is_word c || (is_space c || one_of (codes "*,") c)))
    ∷ one b';'
    ∷ [])

unfoldable pub disallow_events : Text → CleansedLines → ℕ → Option Cursor → List Event
unfolding found group_text
disallow_events filename clean linenum none = []
disallow_events filename clean linenum (some m) =
    complain filename linenum
      (ltb (linenum + 1) clean.num_lines
        && not (found re_class_end (line_at clean.elided (linenum + 1))))
      "readability/constructors" 3
      (group_text 1 m ++ codes " should be the last thing in the class")
