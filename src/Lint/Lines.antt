-- ===== src/Lint/Lines.antt =====
-- Checks of tools/cpplint.py that look at one line, or at a line and those before it.
use optimer.Prelude.{
  Bool, List, Option, [], all, false, if◌then◌else◌, length, ltb, none, not, some, suc, true, zero,
  ℕ, ◌%◌, ◌&&◌, ◌++◌, ◌+◌, ◌==◌, ◌∷◌,
}
use optimer.Text.Unicode.{is_unicode_space}
use optimer.Text.{Text, codes, count, find, is_alnum, is_empty, is_space, replace, text_eq}
use optimer.Regex.{
  Regex, alt, any_code, bol, cat, cls, eol, group, group_of, is_word, lazy, matches, one, one_of,
  opt, plus, re_match, seq, spaces, str, text_or_empty, words_of,
}
use optimer.Lint.Event.{Event, report}
use optimer.Lint.Cleanse.{CleansedLines, line_at}
use optimer.Lint.Nesting.{BlockInfo, NestingState, class_info}

-- not line or line.isspace()
unfoldable pub is_blank_line : Text → Bool
is_blank_line line = all is_unicode_space line

-- The line before `linenum` that is not blank, with its number; `none` is the pair of '' and -1.
unfoldable pub previous_from : List Text → ℕ → Option (Text × ℕ)
unfolding is_blank_line
previous_from elided zero = none
previous_from elided (suc i) =
    let line = line_at elided i in
    let above = previous_from elided i in if is_blank_line line then above else some (line, i)

unfoldable pub get_previous_non_blank_line : CleansedLines → ℕ → Option (Text × ℕ)
unfolding previous_from
get_previous_non_blank_line clean linenum = previous_from clean.elided linenum

-- The first half of the odd count: a difference and a sum have one parity.
unfoldable pub check_for_multiline_comments_and_strings : Text → CleansedLines → ℕ → List Event
unfolding replace count
check_for_multiline_comments_and_strings filename clean linenum =
    let line = replace (line_at clean.elided linenum) (codes "\\\\") [] in
    let comment =
      if ltb (count line (codes "*/")) (count line (codes "/*"))
      then report filename linenum (codes "readability/multiline_comment") 5 (
          codes
            "Complex multi-line /*...*/-style comment found. Lint may give bogus warnings.  Consider replacing these with //-style comments, with #if 0...#endif, or with more clearly structured multi-line comments.")
        ∷ []
      else [] in
    let string =
      if (count line (codes "\"") + count line (codes "\\\"")) % 2 == 0
      then []
      else report filename linenum (codes "readability/multiline_string") 5 (
          codes
            "Multi-line string (\"...\") found.  This lint script doesn't do well with such strings, and may give bogus warnings.  They're ugly and unnecessary, and you should use concatenation instead\".")
        ∷ [] in
    comment ++ string

abbrev threading_list : List (Text × Text)
threading_list =
    (codes "asctime(", codes "asctime_r(")
    ∷ (codes "ctime(", codes "ctime_r(")
    ∷ (codes "getgrgid(", codes "getgrgid_r(")
    ∷ (codes "getgrnam(", codes "getgrnam_r(")
    ∷ (codes "getlogin(", codes "getlogin_r(")
    ∷ (codes "getpwnam(", codes "getpwnam_r(")
    ∷ (codes "getpwuid(", codes "getpwuid_r(")
    ∷ (codes "gmtime(", codes "gmtime_r(")
    ∷ (codes "localtime(", codes "localtime_r(")
    ∷ (codes "rand(", codes "rand_r(")
    ∷ (codes "readdir(", codes "readdir_r(")
    ∷ (codes "strtok(", codes "strtok_r(")
    ∷ (codes "ttyname(", codes "ttyname_r(")
    ∷ []

-- whether a call may begin at the position: it is the first, or no name goes on before it
abbrev may_begin : Text → ℕ → Bool
may_begin line zero = true
may_begin [] (suc i) = true
may_begin (c ∷ s) (suc zero) = not (is_alnum c) && not (one_of (codes "_.>") c)
may_begin (c ∷ s) (suc (suc i)) = may_begin s (suc i)

threading_events : Text → ℕ → Text → List (Text × Text) → List Event
unfolding find
threading_events filename linenum line [] = []
threading_events filename linenum line ((single, safe) ∷ rest) =
    (elim (find line single) [
      | none ↦ []
      | some ix ↦
          if may_begin line ix
          then report filename linenum (codes "runtime/threadsafe_fn") 2 (
              codes "Consider using "
              ++ safe
              ++ codes "...) instead of "
              ++ single
              ++ codes "...) for improved thread safety.")
            ∷ []
          else []
    ])
    ++ threading_events filename linenum line rest

unfoldable pub check_posix_threading : Text → CleansedLines → ℕ → List Event
unfolding threading_events
check_posix_threading filename clean linenum =
    threading_events filename linenum (line_at clean.elided linenum) threading_list

-- ^\s*\*\w+(\+\+|--);
re_invalid_increment : Regex
re_invalid_increment = cat (
    bol
    ∷ spaces
    ∷ one b'*'
    ∷ plus (cls is_word)
    ∷ group 1 (alt (str "++") (str "--"))
    ∷ one b';'
    ∷ [])

unfoldable pub check_invalid_increment : Text → CleansedLines → ℕ → List Event
unfolding re_invalid_increment matches
check_invalid_increment filename clean linenum =
    if matches re_invalid_increment (line_at clean.elided linenum)
    then report filename linenum (codes "runtime/invalid_increment") 5
        (codes "Changing pointer instead of value (or unused value of operator*).")
      ∷ []
    else []

-- ^//(\s*)TODO(\(.+?\))?:?(\s|$)?
re_todo : Regex
re_todo = cat (
    bol
    ∷ str "//"
    ∷ group 1 spaces
    ∷ str "TODO"
    ∷ opt (group 2 (cat (one b'(' ∷ any_code ∷ lazy any_code ∷ one b')' ∷ [])))
    ∷ opt (one b':')
    ∷ opt (group 3 (alt (cls is_space) eol))
    ∷ [])

abbrev long_gap : Option Text → Bool
long_gap none = false
long_gap (some t) = ltb 1 (length t)

abbrev is_missing : Option Text → Bool
is_missing none = true
is_missing (some t) = is_empty t

-- middle_whitespace != ' ' and middle_whitespace != '': None differs from both
abbrev bad_middle : Option Text → Bool
bad_middle none = true
bad_middle (some t) = not (text_eq t (codes " ")) && not (is_empty t)

unfoldable pub check_comment : Text → Text → ℕ → List Event
unfolding re_todo re_match group_of text_eq
check_comment comment filename linenum = elim (re_match re_todo comment) [
  | none ↦ []
  | some m ↦
      (if long_gap (group_of 1 m.groups)
        then report filename linenum (codes "whitespace/todo") 2
            (codes "Too many spaces before TODO")
          ∷ []
        else [])
      ++ ((if is_missing (group_of 2 m.groups)
            then report filename linenum (codes "readability/todo") 2 (
                codes
                  "Missing username in TODO; it should look like \"// TODO(my_username): Stuff.\"")
              ∷ []
            else [])
          ++ (if bad_middle (group_of 3 m.groups)
              then report filename linenum (codes "whitespace/todo") 2
                  (codes "TODO(my_username) should be followed by a space")
                ∷ []
              else []))
]

-- \s*(DISALLOW_COPY_AND_ASSIGN|DISALLOW_EVIL_CONSTRUCTORS|DISALLOW_IMPLICIT_CONSTRUCTORS)
re_disallow : Regex
re_disallow = seq spaces (
    group 1 (
      words_of (
        codes "DISALLOW_COPY_AND_ASSIGN"
        ∷ codes "DISALLOW_EVIL_CONSTRUCTORS"
        ∷ codes "DISALLOW_IMPLICIT_CONSTRUCTORS"
        ∷ [])))

access_events : Text → ℕ → Text → List BlockInfo → List Event
access_events filename linenum macro [] = []
access_events filename linenum macro (b ∷ bs) = elim b.kind [
  | class_info name start derived access end ↦
      if text_eq access (codes "private")
      then []
      else report filename linenum (codes "readability/constructors") 3
          (macro ++ codes " must be in the private: section")
        ∷ []
  | _ ↦ []
]

unfoldable pub check_access : Text → CleansedLines → ℕ → NestingState → List Event
unfolding re_disallow re_match access_events group_of text_eq
check_access filename clean linenum s = elim (re_match re_disallow (line_at clean.elided linenum)) [
  | none ↦ []
  | some m ↦ access_events filename linenum (text_or_empty (group_of 1 m.groups)) s.stack
]
