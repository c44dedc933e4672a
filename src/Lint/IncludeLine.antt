-- ===== src/Lint/IncludeLine.antt =====
-- `_ClassifyInclude` and `CheckIncludeLine` of tools/cpplint.py. The repository's name of the file
-- is given.
use optimer.Prelude.{
  Bool, List, Option, [], false, if◌then◌else◌, length, none, not, some, take, true, ℕ, ◌&&◌, ◌++◌,
  ◌+◌, ◌-◌, ◌==◌, ◌||◌, ◌∷◌,
}
use optimer.Text.{Text, codes, decimal, ends_with, member, text_eq}
use optimer.Regex.{
  Cursor, Regex, at_start, between, bol, cat, cls, eol, found, group, group_of, matches, one,
  one_of, opt, plus, re_match, re_search, seq, str, text_or_empty, words_of,
}
use optimer.OsPath.{basename, dirname, normpath, splitext}
use optimer.Lint.Event.{Event, report}
use optimer.Lint.Headers.{cpp_headers, stl_headers}
use optimer.Lint.Cleanse.{CleansedLines, line_at, re_include}
use optimer.Lint.Include.{
  HeaderType, IncludeState, c_sys_header, check_next_include_order, cpp_sys_header,
  is_in_alphabetical_order, likely_my_header, other_header, possible_my_header,
}

-- filename.endswith(suffix) behind a `-` or `_`
has_suffix : Text → Text → Bool
unfolding ends_with
has_suffix filename suffix =
    ends_with filename (b'-' ∷ suffix) || ends_with filename (b'_' ∷ suffix)

drop_suffixes : List Text → Text → Text
unfolding has_suffix splitext
drop_suffixes [] filename = (splitext filename).0
drop_suffixes (suffix ∷ suffixes) filename =
    let rest = drop_suffixes suffixes filename in
    if has_suffix filename suffix
    then take (length filename - (length suffix + 1)) filename
    else rest

unfoldable pub drop_common_suffixes : Text → Text
unfolding drop_suffixes
drop_common_suffixes = drop_suffixes (
    codes "test.cc"
    ∷ codes "regtest.cc"
    ∷ codes "unittest.cc"
    ∷ codes "inl.h"
    ∷ codes "impl.h"
    ∷ codes "internal.h"
    ∷ [])

unfoldable pub is_test_filename : Text → Bool
unfolding ends_with
is_test_filename filename =
    ends_with filename (codes "_test.cc")
    || (ends_with filename (codes "_unittest.cc") || ends_with filename (codes "_regtest.cc"))

-- ^[^-_.]+
re_first_component : Regex
re_first_component = seq bol (plus (cls λ c. not (one_of (codes "-_.") c)))

-- group(0) of the match
first_component : Text → Option Text
unfolding re_first_component re_match
first_component base = elim (re_match re_first_component base) [
  | none ↦ none
  | some m ↦ some (between (at_start base) m)
]

same_component : Option Text → Option Text → Bool
unfolding text_eq
same_component none b = false
same_component (some a) none = false
same_component (some a) (some b) = text_eq a b

classify_own : Text → Text → HeaderType
unfolding first_component same_component normpath dirname basename text_eq
classify_own target include =
    let target_dir = dirname target in
    let include_dir = dirname include in
    if text_eq (basename target) (basename include)
      && (text_eq include_dir target_dir
          || text_eq include_dir (normpath (target_dir ++ codes "/../public")))
    then likely_my_header
    else if same_component (first_component (basename target)) (first_component (basename include))
    then possible_my_header
    else other_header

unfoldable pub classify_include : Text → Text → Bool → HeaderType
unfolding classify_own drop_common_suffixes member
classify_include repository_name include is_system =
    if is_system
    then (if member include stl_headers || member include cpp_headers
        then cpp_sys_header
        else c_sys_header)
    else classify_own (drop_common_suffixes repository_name) (drop_common_suffixes include)

-- #include +"[^/]+\.h"
re_include_new_style : Regex
re_include_new_style =
    cat (
      str "#include" ∷ plus (one b' ') ∷ one 34 ∷ plus (cls λ c. not (c == b'/')) ∷ str ".h\"" ∷ [])

line_of : Text → List (Text × ℕ) → Option ℕ
unfolding text_eq
line_of include [] = none
line_of include ((k, n) ∷ d) = if text_eq k include then some n else line_of include d

order_events : Text → ℕ → Text → Text → List Event
order_events filename linenum base [] = []
order_events filename linenum base (c ∷ message) =
    report filename linenum (codes "build/include_order") 4
      ((c ∷ message) ++ codes ". Should be: " ++ base ++ codes ".h, c system, c++ system, other.")
    ∷ []

alpha_events : Text → ℕ → Text → Bool → List Event
alpha_events filename linenum include true = []
alpha_events filename linenum include false =
    report filename linenum (codes "build/include_alpha") 4
      (codes "Include \"" ++ include ++ codes "\" not in alphabetical order")
    ∷ []

-- A header that the file has not included yet.
new_include : Text → ℕ → Text → Text → Bool → IncludeState → IncludeState × List Event
unfolding order_events alpha_events classify_include check_next_include_order
    is_in_alphabetical_order
new_include filename linenum repository_name include is_system s =
    let s1 = record s { lines = (include, linenum) ∷ s.lines } in
    let (s2, message) =
      check_next_include_order (classify_include repository_name include is_system) s1 in
    let (s3, ordered) = is_in_alphabetical_order include s2 in
    let base = (splitext (basename repository_name)).0 in
    (
      s3,
      order_events filename linenum base message ++ alpha_events filename linenum include ordered,
    )

found_include : Text → ℕ → Text → Text → Bool → IncludeState → Option ℕ → IncludeState × List Event
unfolding new_include decimal
found_include filename linenum repository_name include is_system s none =
    new_include filename linenum repository_name include is_system s
found_include filename linenum repository_name include is_system s (some first) = (
  s,
  report filename linenum (codes "build/include") 4 (
        codes "\""
        ++ include
        ++ codes "\" already included at "
        ++ filename
        ++ codes ":"
        ++ decimal first)
      ∷ [],
)

-- (f|ind|io|i|o|parse|pf|stdio|str|)?stream$
re_stream : Regex
re_stream = cat (
    opt (
      group 1 (
        words_of (
          codes "f"
          ∷ codes "ind"
          ∷ codes "io"
          ∷ codes "i"
          ∷ codes "o"
          ∷ codes "parse"
          ∷ codes "pf"
          ∷ codes "stdio"
          ∷ codes "str"
          ∷ []
          ∷ [])))
    ∷ str "stream"
    ∷ eol
    ∷ [])

stream_events : Text → ℕ → Option Cursor → List Event
unfolding re_stream matches is_test_filename group_of
stream_events filename linenum none = []
stream_events filename linenum (some m) =
    if matches re_stream (text_or_empty (group_of 2 m.groups)) && not (is_test_filename filename)
    then report filename linenum (codes "readability/streams") 3
        (codes "Streams are highly discouraged.")
      ∷ []
    else []

include_events :
    Text → ℕ → Text → IncludeState → Option (Cursor × Cursor) → IncludeState × List Event
unfolding found_include line_of group_of text_eq
include_events filename linenum repository_name s none = (s, [])
include_events filename linenum repository_name s (some m) =
    let include = text_or_empty (group_of 2 m.1.groups) in
    let is_system = text_eq (text_or_empty (group_of 1 m.1.groups)) (codes "<") in
    found_include filename linenum repository_name include is_system s (line_of include s.lines)

unfoldable pub check_include_line :
    Text → Text → CleansedLines → ℕ → IncludeState → IncludeState × List Event
unfolding include_events stream_events re_include_new_style re_include re_match re_search found
check_include_line filename repository_name clean linenum s =
    let line = line_at clean.lines linenum in
    let style =
      if found re_include_new_style line
      then report filename linenum (codes "build/include") 4
          (codes "Include the directory when naming .h files")
        ∷ []
      else [] in
    let (s', events) =
      include_events filename linenum repository_name s (re_search re_include line) in
    (s', style ++ events ++ stream_events filename linenum (re_match re_include line))
