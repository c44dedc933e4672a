-- ===== src/Lint/Cleanse.antt =====
-- The lines of a file in tools/cpplint.py, with comments and strings taken out.
pub mod Multiline
pub mod Scan
pub mod Tail
use optimer.Prelude.{
  Bool, List, [], drop, if◌then◌else◌, leb, length, ltb, map, none, not, some, suc, take, zero, ℕ,
  ◌%◌, ◌&&◌, ◌+◌, ◌-◌, ◌==◌, ◌||◌, ◌∷◌,
}
use optimer.Text.Unicode.{unicode_rstrip, unicode_strip}
use optimer.Text.{
  Text, codes, contains, count, ends_with, find, is_digit, is_space, replace, starts_with,
}
use optimer.Regex.{
  Regex, ahead, alt, any_code, bol, cat, cls, eol, group, is_word, matches, one, one_of, plus,
  re_sub, seq, spaces, star, str,
}
use optimer.Lint.Event.{Event, report}

-- \\([abfnrtv?"\\\']|\d+|x[0-9a-fA-F]+)
re_escapes : Regex
re_escapes = seq (one 92) (
    group 1 (
      alt (cls (one_of (codes "abfnrtv?\"\\'"))) (
        alt (plus (cls is_digit)) (
          seq (one b'x') (
            plus (
              cls
                λ c. is_digit c || ((leb b'a' c && leb c b'f') || (leb b'A' c && leb c b'F'))))))))

-- "[^"]*"
re_double_quotes : Regex
re_double_quotes = cat (one 34 ∷ star (cls λ c. not (c == 34)) ∷ one 34 ∷ [])

-- '.'
re_single_quotes : Regex
re_single_quotes = cat (one 39 ∷ any_code ∷ one 39 ∷ [])

-- /\*.*\*/
c_comment : Regex
c_comment = cat (str "/*" ∷ star any_code ∷ str "*/" ∷ [])

re_c_comments : Regex
unfolding c_comment
re_c_comments = group 1 (
    alt (cat (spaces ∷ c_comment ∷ spaces ∷ eol ∷ [])) (
      alt (seq c_comment (plus (cls is_space))) (
        alt (cat (plus (cls is_space) ∷ c_comment ∷ ahead (cls λ c. not (is_word c)) ∷ []))
          c_comment)))

-- ^\s*#\s*include\s*([<"])([^>"]*)[>"].*$
unfoldable pub re_include : Regex
re_include = cat (
    bol
    ∷ spaces
    ∷ one b'#'
    ∷ spaces
    ∷ str "include"
    ∷ spaces
    ∷ group 1 (cls (one_of (codes "<\"")))
    ∷ group 2 (star (cls λ c. not (one_of (codes ">\"") c)))
    ∷ cls (one_of (codes ">\""))
    ∷ star any_code
    ∷ eol
    ∷ [])

-- The difference of counts is odd: whether it is taken on integers or on naturals, `& 1` is the
-- parity of the sum.
unfoldable pub is_cpp_string : Text → Bool
unfolding count replace
is_cpp_string line =
    let l = replace line (codes "\\\\") (codes "XX") in
    (count l (codes "\"") + count l (codes "\\\"") + count l (codes "'\"'")) % 2 == 1

unfoldable pub cleanse_comments : Text → Text
unfolding find unicode_rstrip re_sub re_c_comments
cleanse_comments line = re_sub re_c_comments [] (elim (find line (codes "//")) [
  | none ↦ line
  | some commentpos ↦
      if is_cpp_string (take commentpos line) then line else unicode_rstrip (take commentpos line)
])

unfoldable pub collapse_strings : Text → Text
unfolding matches re_include re_sub re_escapes re_single_quotes re_double_quotes
collapse_strings elided =
    if matches re_include elided
    then elided
    else re_sub re_double_quotes (codes "\"\"")
        (re_sub re_single_quotes (codes "''") (re_sub re_escapes [] elided))

pub record CleansedLines : Type 0 where
  pub elided : List Text
  pub lines : List Text
  pub raw_lines : List Text
  pub num_lines : ℕ

unfoldable pub cleansed_lines : List Text → CleansedLines
cleansed_lines raw = record {
  elided = map (λ l. cleanse_comments (collapse_strings l)) raw;
  lines = map cleanse_comments raw;
  raw_lines = raw;
  num_lines = length raw;
}

-- lines[i], for a number of the file
abbrev pub line_at : List Text → ℕ → Text
line_at [] i = []
line_at (l ∷ ls) zero = l
line_at (l ∷ ls) (suc i) = line_at ls i

-- The first index from `lineix` on whose line passes the test, or the number of lines. There are
-- `left` indices left.
first_from : (Text → Bool) → ℕ → List Text → ℕ → ℕ
first_from test zero lines lineix = length lines
first_from test (suc left) lines lineix =
    let later = first_from test left lines (lineix + 1) in
    if test (line_at lines lineix) then lineix else later

-- lines[lineix].strip().startswith('/*'), and the comment goes beyond this line
unfoldable pub opens_comment : Text → Bool
unfolding unicode_strip starts_with contains
opens_comment line =
    starts_with (unicode_strip line) (codes "/*")
    && not (contains (drop 2 (unicode_strip line)) (codes "*/"))

unfoldable pub closes_comment : Text → Bool
unfolding unicode_strip ends_with
closes_comment line = ends_with (unicode_strip line) (codes "*/")

unfoldable pub find_next_multi_line_comment_start : List Text → ℕ → ℕ
unfolding first_from
find_next_multi_line_comment_start lines lineix =
    first_from opens_comment (length lines - lineix) lines lineix

unfoldable pub find_next_multi_line_comment_end : List Text → ℕ → ℕ
unfolding first_from
find_next_multi_line_comment_end lines lineix =
    first_from closes_comment (length lines - lineix) lines lineix

abbrev pub dummy : Text
dummy = codes "// dummy"

-- The lines from `begin` to before `end` are replaced; `i` is the index of the first line.
clear_from : ℕ → ℕ → ℕ → List Text → List Text
clear_from i begin end [] = []
clear_from i begin end (l ∷ ls) =
    (if leb begin i && ltb i end then dummy else l) ∷ clear_from (suc i) begin end ls

unfoldable pub remove_multi_line_comments_from_range : List Text → ℕ → ℕ → List Text
unfolding clear_from
remove_multi_line_comments_from_range lines begin end = clear_from 0 begin end lines

-- The loop of `RemoveMultiLineComments`: each round passes a line, so `left` rounds are enough.
remove_loop : Text → ℕ → List Text → ℕ → List Text × List Event
remove_loop filename zero lines lineix = (lines, [])
remove_loop filename (suc left) lines lineix =
    let begin = find_next_multi_line_comment_start lines lineix in
    let end = find_next_multi_line_comment_end lines begin in
    let cleared = remove_multi_line_comments_from_range lines begin (end + 1) in
    let rest = remove_loop filename left cleared (end + 1) in
    if leb (length lines) begin
    then (lines, [])
    else if leb (length lines) end
    then (
      lines,
      report filename (begin + 1) (codes "readability/multiline_comment") 5
            (codes "Could not find end of multi-line comment")
          ∷ [],
    )
    else rest

unfoldable pub remove_multi_line_comments : Text → List Text → List Text × List Event
unfolding remove_loop
remove_multi_line_comments filename lines = remove_loop filename (suc (length lines)) lines 0
