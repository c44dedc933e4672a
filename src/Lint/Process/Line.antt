-- ===== src/Lint/Process/Line.antt =====
-- `ProcessLine` of tools/cpplint.py and the loop over the lines of a file.
use optimer.Prelude.{
  Bool, List, Option, [], false, if◌then◌else◌, none, some, suc, true, zero, ℕ, ◌++◌, ◌+◌, ◌∷◌,
}
use optimer.Text.{Text}
use optimer.Lint.Event.{Event, calls, parse_nolint_suppressions}
use optimer.Lint.Cleanse.{CleansedLines, line_at}
use optimer.Lint.Include.{IncludeState, empty_include_state}
use optimer.Lint.Function.{FunctionState, empty_function_state}
use optimer.Lint.Bodies.{check_for_function_lengths}
use optimer.Lint.Nesting.{BlockInfo, NestingState, empty_nesting, no_asm}
use optimer.Lint.Nesting.Update.{update}
use optimer.Lint.Lines.{
  check_for_multiline_comments_and_strings, check_invalid_increment, check_posix_threading,
}
use optimer.Lint.Style.{UnicodeData, check_style}
use optimer.Lint.Language.{check_language}
use optimer.Lint.Standard.{check_for_non_standard_constructs}
use optimer.Lint.WholeFile.{check_make_pair_uses_deduction}

-- The file that is checked and what the checks ask about it. `guard` is the variable of the header
-- guard, for a header; `repository` is the name in the repository, `none` where the search for it
-- does not end. `extra_checks` are check_fn(filename, clean_lines, line, error).
pub record Source : Type 0 where
  pub filename : Text
  pub file_extension : Text
  pub guard : Option Text
  pub repository : Option Text
  pub verbose_level : ℕ
  pub unicode : UnicodeData
  pub extra_checks : List (Text → CleansedLines → ℕ → List Event)

-- the three states that the lines of a file share
pub record FileState : Type 0 where
  pub include_state : IncludeState
  pub function_state : FunctionState
  pub nesting_state : NestingState

abbrev pub empty_file_state : FileState
empty_file_state = record {
  include_state = empty_include_state;
  function_state = empty_function_state;
  nesting_state = empty_nesting;
}

-- nesting_state.stack and nesting_state.stack[-1].inline_asm != _NO_ASM
unfoldable pub in_assembly : List BlockInfo → Bool
in_assembly [] = false
in_assembly (b ∷ bs) = elim b.inline_asm [ no_asm ↦ false | _ ↦ true ]

unfoldable pub extra_events :
    Text → CleansedLines → ℕ → List (Text → CleansedLines → ℕ → List Event) → List Event
extra_events filename clean line [] = []
extra_events filename clean line (check_fn ∷ rest) =
    check_fn filename clean line ++ extra_events filename clean line rest

-- the checks that change no state and end
unfoldable pub stateless_events : Source → CleansedLines → ℕ → NestingState → List Event
unfolding check_for_non_standard_constructs check_posix_threading check_invalid_increment
    check_make_pair_uses_deduction extra_events
stateless_events src clean line nesting = calls (
    check_for_non_standard_constructs src.filename clean line nesting
    ∷ check_posix_threading src.filename clean line
    ∷ check_invalid_increment src.filename clean line
    ∷ check_make_pair_uses_deduction src.filename clean line
    ∷ extra_events src.filename clean line src.extra_checks
    ∷ [])

-- CheckLanguage and the checks behind it
unfoldable pub language_and_rest :
    Source → CleansedLines → ℕ → FileState → Option (FileState × List Event)
unfolding check_language stateless_events
language_and_rest src clean line s =
    elim (check_language src.filename src.file_extension src.repository clean line
      s.include_state) [
        | none ↦ none
        | some (include_state, events) ↦ some (
          record s { include_state = include_state },
          events ++ stateless_events src clean line s.nesting_state,
        )
      ]

-- the checks of a line outside of inline assembly
unfoldable pub check_line : Source → CleansedLines → ℕ → FileState → Option (FileState × List Event)
unfolding check_for_function_lengths check_for_multiline_comments_and_strings check_style
    language_and_rest
check_line src clean line s =
    let (function_state, lengths) =
      check_for_function_lengths src.filename src.verbose_level clean line s.function_state in
    let multiline = check_for_multiline_comments_and_strings src.filename clean line in
    elim (check_style src.unicode src.filename clean line src.guard s.nesting_state) [
      | none ↦ none
      | some style ↦
          elim (language_and_rest src clean line (record s { function_state = function_state })) [
            | none ↦ none
            | some (s', rest) ↦ some (s', lengths ++ (multiline ++ (style ++ rest)))
          ]
    ]

-- The suppressions of a line stand before its errors. `none` is a line whose checks do not end.
unfoldable pub process_line :
    Source → CleansedLines → ℕ → FileState → Option (FileState × List Event)
unfolding parse_nolint_suppressions update in_assembly check_line
process_line src clean line s =
    let nolint = parse_nolint_suppressions src.filename (line_at clean.raw_lines line) line in
    let (nesting_state, nesting) = update src.filename clean line s.nesting_state in
    let entered = record s { nesting_state = nesting_state } in
    if in_assembly nesting_state.stack
    then some (entered, nolint ++ nesting)
    else elim (check_line src clean line entered) [
      | none ↦ none
      | some (s', events) ↦ some (s', nolint ++ (nesting ++ events))
    ]

-- the `left` lines from the number `line` on
unfoldable pub process_lines :
    Source → CleansedLines → ℕ → ℕ → FileState → Option (FileState × List Event)
process_lines src clean zero line s = some (s, [])
process_lines src clean (suc left) line s = elim (process_line src clean line s) [
  | none ↦ none
  | some (s', events) ↦ elim (process_lines src clean left (line + 1) s') [
    | none ↦ none
    | some (s'', more) ↦ some (s'', events ++ more)
  ]
]
