-- ===== src/Tests/Process.antt =====
-- Tests of the checks of lines and files that may not end, with the examples of their
-- theorems.
use optimer.Prelude.{
  List, Option, [], all, arith, false, length, none, refl, some, suc, true, zero, ℕ, ◌++◌, ◌==◌,
  ◌↔◌, ◌∷◌, ◌≡◌, ◌≤◌, ◌⊎◌,
}
use optimer.Text.{Text, codes}
use optimer.Regex.{matches, re_match, re_search}
use optimer.Lint.Event.{Event, parse_nolint_suppressions, suppress}
use optimer.Lint.Cleanse.{CleansedLines, remove_multi_line_comments}
use optimer.Lint.Lines.{is_blank_line, previous_from}
use optimer.Lint.Include.{IncludeState, empty_include_state}
use optimer.Lint.FileInfo.{FileSystem}
use optimer.Lint.Nesting.Update.{apply_token}
use optimer.Lint.Style.{UnicodeData, length_events, may_be_long}
use optimer.Lint.Style.Width.{IsAscii, PlainAscii, length_events_iff}
use optimer.Lint.BraceStyle.{check_braces, join_back, re_braces_statement}
use optimer.Lint.BraceStyle.Rounds.{begins_unindented}
use optimer.Lint.BraceStyle.Loop.{check_braces-none_iff, check_braces_endless, check_braces_ends}
use optimer.Lint.WholeFile.{check_for_newline_at_eof}
use optimer.Lint.Usage.{check_for_include_what_you_use}
use optimer.Lint.Usage.Missing.{AllMissing, check_for_include_what_you_use-AllMissing}
use optimer.Lint.Process.{read_lines_of, with_markers}
use optimer.Lint.Process.Newline.{check_for_newline_at_eof_iff}
use optimer.Lint.Process.Line.{FileState, Source, empty_file_state, process_line, process_lines}
use optimer.Lint.State.{handle_all, initial}
use optimer.Lint.State.Nolint.{process_line-nolint, without_line}
use optimer.Lint.Process.Ends.{HasLineAbove, process_lines_ends}
use optimer.Lint.Nesting.{apply_directive}

abbrev lines_of : List Text → CleansedLines
lines_of lines = record {
  lines = lines;
  elided = lines;
  raw_lines = lines;
  num_lines = length lines;
}

abbrev lone_braces : CleansedLines
lone_braces = lines_of (codes "" ∷ codes "  { };" ∷ [])

check_braces-none_iff_example :
    (check_braces (codes "a.cc") lone_braces 1 ≡ none)
    ↔ ((rounds : ℕ) → join_back rounds lone_braces.elided 1 (codes "  { };") ≡ none)
check_braces-none_iff_example = check_braces-none_iff (codes "a.cc") lone_braces 1

abbrev braces_below : CleansedLines
braces_below = lines_of (codes "int f()" ∷ codes "" ∷ codes "  { };" ∷ [])

check_braces_ends_example :
    (events : List Event) × (check_braces (codes "a.cc") braces_below 2 ≡ some events)
check_braces_ends_example =
    check_braces_ends (codes "a.cc") braces_below 2 0 (omega arith)
      (unfold begins_unindented in refl)

braces_below-HasLineAbove : HasLineAbove braces_below
unfolding matches re_match begins_unindented
braces_below-HasLineAbove zero h = cc
braces_below-HasLineAbove (suc zero) h = cc
braces_below-HasLineAbove (suc (suc zero)) h = (0, omega arith, refl)
braces_below-HasLineAbove (suc (suc (suc i))) h = cc

nothing_above : previous_from lone_braces.elided 1 ≡ none
unfolding previous_from is_blank_line
nothing_above = refl

indented_braces : matches re_braces_statement (codes "  { };") ≡ true
unfolding matches re_match
indented_braces = refl

check_braces_endless_example : check_braces (codes "a.cc") lone_braces 1 ≡ none
check_braces_endless_example =
    check_braces_endless (codes "a.cc") lone_braces 1 nothing_above indented_braces

abbrev pub ascii : UnicodeData
ascii = record { normalize = λ s. s; is_wide = λ c. false; is_combining = λ c. false }

ascii-PlainAscii : PlainAscii ascii
ascii-PlainAscii = record {
  normalized = λ s h. refl;
  not_wide = λ c h. refl;
  not_combining = λ c h. refl;
}

abbrev short_line : Text
short_line = codes "int x;"

short_line-IsAscii : IsAscii short_line
short_line-IsAscii =
    (omega arith, (omega arith, (omega arith, (omega arith, (omega arith, (omega arith, tt))))))

length_events_iff_example :
    (length_events ascii (codes "a.cc") 3 none short_line ≡ [])
    ↔ ((may_be_long none short_line ≡ true) ⊎ (length short_line ≤ 80))
length_events_iff_example =
    length_events_iff ascii ascii-PlainAscii (codes "a.cc") 3 none short_line short_line-IsAscii

check_for_newline_at_eof_iff_example :
    (check_for_newline_at_eof
        (codes "a.cc")
        (remove_multi_line_comments
          (codes "a.cc")
          (with_markers (read_lines_of (codes "int x;" ++ b'\n' ∷ codes "\r\r")))).0
      ≡ [])
    ↔ (all (λ c. c == 13) (codes "\r\r") ≡ true)
check_for_newline_at_eof_iff_example =
    check_for_newline_at_eof_iff (codes "a.cc") (codes "int x;") (codes "\r\r") refl

abbrev pub files : FileSystem
files = record { abspath = λ p. codes "/r/" ++ p; exists = λ p. true }

abbrev uses_vector : CleansedLines
uses_vector = lines_of (codes "vector<int> x;" ∷ codes "string y;" ∷ [])

abbrev includes_string : IncludeState
includes_string = record empty_include_state { lines = (codes "string", 1) ∷ [] }

check_for_include_what_you_use-AllMissing_example :
    AllMissing
      (codes "a.h")
      (codes "string" ∷ [])
      (check_for_include_what_you_use files (λ p. none) (codes "a.h") uses_vector includes_string)
check_for_include_what_you_use-AllMissing_example =
    check_for_include_what_you_use-AllMissing files (λ p. none) (codes "a.h") uses_vector
      includes_string

abbrev source : Source
source = record {
  filename = codes "a.cc";
  file_extension = codes "cc";
  guard = none;
  repository = some (codes "a.cc");
  verbose_level = 1;
  unicode = ascii;
  extra_checks = [];
}

abbrev quiet_text : Text
quiet_text = codes "int\tx;  // NOLINT"

abbrev quiet_clean : CleansedLines
quiet_clean = record {
  lines = codes "" ∷ codes "int\tx;" ∷ [];
  elided = codes "" ∷ codes "int\tx;" ∷ [];
  raw_lines = codes "" ∷ quiet_text ∷ [];
  num_lines = 2;
}

-- the checks of the second of the lines behind a state
abbrev quiet_result : Option (FileState × List Event)
quiet_result = process_line source quiet_clean 1 empty_file_state

abbrev state_of : Option (FileState × List Event) → FileState
state_of none = empty_file_state
state_of (some p) = p.0

abbrev events_of : Option (FileState × List Event) → List Event
events_of none = []
events_of (some p) = p.1

quiet_ends : quiet_result ≡ some (state_of quiet_result, events_of quiet_result)
unfolding process_line apply_token apply_directive
quiet_ends = refl

nolint_read : parse_nolint_suppressions (codes "a.cc") quiet_text 1 ≡ suppress none 1 ∷ []
unfolding parse_nolint_suppressions re_search
nolint_read = refl

process_line-nolint_example :
    handle_all (events_of quiet_result ++ []) initial
    ≡ handle_all (without_line 1 (events_of quiet_result ++ [])) initial
process_line-nolint_example =
    process_line-nolint source quiet_clean 1 empty_file_state (state_of quiet_result)
      (events_of quiet_result) [] initial nolint_read quiet_ends

process_lines_ends_example :
    (result : FileState × List Event) × (process_lines source braces_below 3 0 empty_file_state
      ≡ some result)
process_lines_ends_example =
    process_lines_ends source braces_below (codes "a.cc") 3 0 empty_file_state refl
      braces_below-HasLineAbove
