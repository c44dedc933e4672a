-- ===== src/Lint/WholeFile.antt =====
-- The checks of tools/cpplint.py that look at all lines of a file, as they are:
-- `CheckForCopyright`, `CheckForUnicodeReplacementCharacters` and `CheckForNewlineAtEOF`, and
-- `CheckMakePairUsesDeduction`.
use optimer.Prelude.{
  Bool, List, [], any, drop, length, ltb, not, take, ℕ, ◌++◌, ◌+◌, ◌-◌, ◌==◌, ◌||◌, ◌∷◌,
}
use optimer.Text.{Text, codes, is_empty}
use optimer.Regex.{Regex, any_case, boundary, cat, found, one, spaces, str}
use optimer.Lint.Event.{Event, complain}
use optimer.Lint.Cleanse.{CleansedLines, line_at}

-- (?i)copyright
abbrev pub re_copyright : Regex
re_copyright = any_case "copyright"

-- lines[1:11], where there are so many
unfoldable pub top_lines : List Text → List Text
top_lines lines = take 10 (drop 1 lines)

unfoldable pub check_for_copyright : Text → List Text → List Event
unfolding top_lines found
check_for_copyright filename lines =
    complain filename 0 (not (any (found re_copyright) (top_lines lines))) "legal/copyright" 5 (
      codes
        "No copyright message found.  You should have a line: \"Copyright [year] <Copyright Owner>\"")

-- u'\ufffd' in line
abbrev pub has_replacement : Text → Bool
has_replacement line = any (λ c. c == 65533) line

-- the lines from the number `linenum` on
unicode_events : Text → ℕ → List Text → List Event
unicode_events filename linenum [] = []
unicode_events filename linenum (line ∷ lines) =
    complain filename linenum (has_replacement line) "readability/utf8" 5
      (codes "Line contains invalid UTF-8 (or Unicode replacement character).")
    ++ unicode_events filename (linenum + 1) lines

unfoldable pub check_for_unicode_replacement_characters : Text → List Text → List Event
unfolding unicode_events
check_for_unicode_replacement_characters filename lines = unicode_events filename 0 lines

-- lines[-2], for two lines or more
abbrev pub last_but_one : List Text → Text
last_but_one [] = []
last_but_one (l ∷ []) = []
last_but_one (l ∷ m ∷ []) = l
last_but_one (l ∷ m ∷ n ∷ ls) = last_but_one (m ∷ n ∷ ls)

-- The callers give three lines or more, so that len(lines) - 2 is no negative number.
unfoldable pub check_for_newline_at_eof : Text → List Text → List Event
check_for_newline_at_eof filename lines =
    complain filename (length lines - 2)
      (ltb (length lines) 3 || not (is_empty (last_but_one lines))) "whitespace/ending_newline" 5
      (codes "Could not find a newline character at the end of the file.")

-- \bmake_pair\s*<
abbrev re_explicit_make_pair : Regex
re_explicit_make_pair = cat (boundary ∷ str "make_pair" ∷ spaces ∷ one b'<' ∷ [])

unfoldable pub check_make_pair_uses_deduction : Text → CleansedLines → ℕ → List Event
unfolding found
check_make_pair_uses_deduction filename clean linenum =
    complain filename linenum (found re_explicit_make_pair (line_at clean.raw_lines linenum))
      "build/explicit_make_pair" 4
      (codes
        "For C++11-compatibility, omit template arguments from make_pair OR use pair directly OR if appropriate, construct a pair directly")
