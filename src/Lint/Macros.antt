-- ===== src/Lint/Macros.antt =====
-- `ReplaceableCheck`, `CheckCheck` and `CheckAltTokens` of tools/cpplint.py.
use optimer.Prelude.{
  Bool, List, Option, [], false, if◌then◌else◌, leb, none, not, some, true, ℕ, ◌&&◌, ◌++◌, ◌||◌,
  ◌∷◌,
}
use optimer.Text.{Text, codes, contains, is_digit, text_eq}
use optimer.Regex.{
  Cursor, Regex, ahead, alt, any_code, bol, cat, cls, digit, eol, found, group, group_text, lit,
  matches, none_of, one, one_of, opt, plus, re_finditer, seq, spaces, star, text_or_empty, words_of,
}
use optimer.Lint.Event.{Event, complain}
use optimer.Lint.Cleanse.{CleansedLines, line_at}

abbrev pub check_macros : List Text
check_macros =
    codes "DCHECK"
    ∷ codes "CHECK"
    ∷ codes "EXPECT_TRUE_M"
    ∷ codes "EXPECT_TRUE"
    ∷ codes "ASSERT_TRUE_M"
    ∷ codes "ASSERT_TRUE"
    ∷ codes "EXPECT_FALSE_M"
    ∷ codes "EXPECT_FALSE"
    ∷ codes "ASSERT_FALSE_M"
    ∷ codes "ASSERT_FALSE"
    ∷ []

-- the operators, in the order in which they are tried, with the names of their macros and those of
-- their negations
abbrev pub check_operators : List (Text × Text × Text)
check_operators =
    (codes "==", codes "EQ", codes "NE")
    ∷ (codes "!=", codes "NE", codes "EQ")
    ∷ (codes ">=", codes "GE", codes "LT")
    ∷ (codes ">", codes "GT", codes "LE")
    ∷ (codes "<=", codes "LE", codes "GT")
    ∷ (codes "<", codes "LT", codes "GE")
    ∷ []

-- what stands before and behind the name of the operator in the macro that replaces one, and whether
-- the operator is negated
abbrev pub replacement_parts : List (Text × Text × Text × Bool)
replacement_parts =
    (codes "DCHECK", codes "DCHECK_", [], false)
    ∷ (codes "CHECK", codes "CHECK_", [], false)
    ∷ (codes "EXPECT_TRUE", codes "EXPECT_", [], false)
    ∷ (codes "ASSERT_TRUE", codes "ASSERT_", [], false)
    ∷ (codes "EXPECT_TRUE_M", codes "EXPECT_", codes "_M", false)
    ∷ (codes "ASSERT_TRUE_M", codes "ASSERT_", codes "_M", false)
    ∷ (codes "EXPECT_FALSE", codes "EXPECT_", [], true)
    ∷ (codes "ASSERT_FALSE", codes "ASSERT_", [], true)
    ∷ (codes "EXPECT_FALSE_M", codes "EXPECT_", codes "_M", true)
    ∷ (codes "ASSERT_FALSE_M", codes "ASSERT_", codes "_M", true)
    ∷ []

replacement_in : List (Text × Text × Text × Bool) → Text → Text → Text → Option Text
unfolding text_eq
replacement_in [] macro name negated = none
replacement_in ((m, front, back, negates) ∷ parts) macro name negated =
    if text_eq m macro
    then some (front ++ ((if negates then negated else name) ++ back))
    else replacement_in parts macro name negated

-- _CHECK_REPLACEMENT[macro][op], for the names of the operator and of its negation
unfoldable pub check_replacement : Text → Text → Text → Option Text
unfolding replacement_in
check_replacement macro name negated = replacement_in replacement_parts macro name negated

-- ([-+]?(\d+|0[xX][0-9a-fA-F]+)[lLuU]{0,3}|".*"|\'.*\')
abbrev re_constant : Regex
re_constant = group 1 (
    alt
      (cat (
        opt (cls (one_of (codes "-+")))
        ∷ group 2 (
            alt (plus digit) (
              cat (
                one b'0'
                ∷ cls (one_of (codes "xX"))
                ∷ plus (
                    cls (λ c.
                      is_digit c || ((leb b'a' c && leb c b'f') || (leb b'A' c && leb c b'F'))))
                ∷ [])))
        ∷ opt (
            seq (cls (one_of (codes "lLuU")))
              (opt (seq (cls (one_of (codes "lLuU"))) (opt (cls (one_of (codes "lLuU")))))))
        ∷ []))
      (alt (cat (one 34 ∷ star any_code ∷ one 34 ∷ []))
        (cat (one 39 ∷ star any_code ∷ one 39 ∷ []))))

-- \s*macro\((\s*constant\s*operator[^<>].*|.*[^<>]operator\s*constant\s*\))
re_replaceable : Text → Text → Regex
re_replaceable operator macro = cat (
    spaces
    ∷ lit macro
    ∷ one b'('
    ∷ alt
        (cat (
          spaces
          ∷ re_constant
          ∷ spaces
          ∷ lit operator
          ∷ cls (none_of (codes "<>"))
          ∷ star any_code
          ∷ []))
        (cat (
          star any_code
          ∷ cls (none_of (codes "<>"))
          ∷ lit operator
          ∷ spaces
          ∷ re_constant
          ∷ spaces
          ∷ one b')'
          ∷ []))
    ∷ [])

-- NULL|&&|\|\|
abbrev re_no_literal : Regex
re_no_literal = words_of (codes "NULL" ∷ codes "&&" ∷ codes "||" ∷ [])

unfoldable pub replaceable_check : Text → Text → Text → Bool
unfolding matches found re_replaceable
replaceable_check operator macro line =
    matches (re_replaceable operator macro) line && not (found re_no_literal line)

-- the first macro of which the name is in the line
unfoldable pub current_macro : List Text → Text → Option Text
unfolding contains
current_macro [] raw_line = none
current_macro (m ∷ ms) raw_line = if contains raw_line m then some m else current_macro ms raw_line

replacement_events : Text → ℕ → Text → Text → List (Text × Text × Text) → List Event
unfolding replaceable_check check_replacement
replacement_events filename linenum macro line [] = []
replacement_events filename linenum macro line ((op, name, negated) ∷ ops) =
    if replaceable_check op macro line
    then complain filename linenum true "readability/check" 2 (
        codes "Consider using "
        ++ (text_or_empty (check_replacement macro name negated)
            ++ (codes " instead of " ++ (macro ++ (codes "(a " ++ (op ++ codes " b)"))))))
    else replacement_events filename linenum macro line ops

macro_events : Text → ℕ → Text → Option Text → List Event
unfolding replacement_events
macro_events filename linenum line none = []
macro_events filename linenum line (some macro) =
    replacement_events filename linenum macro line check_operators

unfoldable pub check_check : Text → CleansedLines → ℕ → List Event
unfolding current_macro macro_events
check_check filename clean linenum =
    macro_events filename linenum (line_at clean.elided linenum)
      (current_macro check_macros (line_at clean.raw_lines linenum))

abbrev pub alt_token_replacement : List (Text × Text)
alt_token_replacement =
    (codes "and", codes "&&")
    ∷ (codes "bitor", codes "|")
    ∷ (codes "or", codes "||")
    ∷ (codes "xor", codes "^")
    ∷ (codes "compl", codes "~")
    ∷ (codes "bitand", codes "&")
    ∷ (codes "and_eq", codes "&=")
    ∷ (codes "or_eq", codes "|=")
    ∷ (codes "xor_eq", codes "^=")
    ∷ (codes "not", codes "!")
    ∷ (codes "not_eq", codes "!=")
    ∷ []

-- What must follow, `(?=[ (]|$)`, leaves one alternative at most, so that their order is of no account.
-- [ =()](and|bitor|or|xor|compl|bitand|and_eq|or_eq|xor_eq|not|not_eq)(?=[ (]|$)
abbrev re_alt_token : Regex
re_alt_token = cat (
    cls (one_of (codes " =()"))
    ∷ group 1 (
        words_of (
          codes "and"
          ∷ codes "bitor"
          ∷ codes "or"
          ∷ codes "xor"
          ∷ codes "compl"
          ∷ codes "bitand"
          ∷ codes "and_eq"
          ∷ codes "or_eq"
          ∷ codes "xor_eq"
          ∷ codes "not"
          ∷ codes "not_eq"
          ∷ []))
    ∷ ahead (alt (cls (one_of (codes " ("))) eol)
    ∷ [])

operator_of : Text → List (Text × Text) → Text
unfolding text_eq
operator_of token [] = []
operator_of token ((t, o) ∷ rest) = if text_eq token t then o else operator_of token rest

token_events : Text → ℕ → List Cursor → List Event
unfolding operator_of group_text
token_events filename linenum [] = []
token_events filename linenum (m ∷ ms) =
    let token = group_text 1 m in
    complain filename linenum true "readability/alt_tokens" 2 (
      codes "Use operator "
      ++ (operator_of token alt_token_replacement ++ (codes " instead of " ++ token)))
    ++ token_events filename linenum ms

-- ^\s*#
abbrev re_preprocessor_line : Regex
re_preprocessor_line = cat (bol ∷ spaces ∷ one b'#' ∷ [])

unfoldable pub check_alt_tokens : Text → CleansedLines → ℕ → List Event
unfolding matches contains re_finditer token_events
check_alt_tokens filename clean linenum =
    let line = line_at clean.elided linenum in
    if matches re_preprocessor_line line
      || (contains line (codes "/*") || contains line (codes "*/"))
    then []
    else token_events filename linenum (re_finditer re_alt_token line)
