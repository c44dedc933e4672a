-- ===== src/Lint/Process.antt =====
-- `ProcessFileData` and `ProcessFile` of tools/cpplint.py. The file system, the contents of files
-- and the tables of `unicodedata` are parameters.
pub mod Line
pub mod Safety
pub mod Counts
pub mod Newline
pub mod Ends
use optimer.Prelude.{
  Bool, List, Option, [], any, if◌then◌else◌, map, none, not, some, ℕ, ◌&&◌, ◌++◌, ◌==◌, ◌||◌, ◌∷◌,
}
use optimer.Text.{Text, codes, ends_with, is_empty, last_piece, member, split, text_eq}
use optimer.Regex.{Regex}
use optimer.Lint.Event.{Event, all_calls, calls, complain}
use optimer.Lint.Cleanse.{CleansedLines, cleansed_lines, remove_multi_line_comments}
use optimer.Lint.State.{LintState, handle_all, reset_nolint_suppressions, set_verbose_level}
use optimer.Lint.FileInfo.{FileSystem, get_header_guard_cpp_variable, repository_name}
use optimer.Lint.HeaderGuard.{check_for_header_guard}
use optimer.Lint.Nesting.{check_class_finished}
use optimer.Lint.Style.{UnicodeData}
use optimer.Lint.WholeFile.{
  check_for_copyright, check_for_newline_at_eof, check_for_unicode_replacement_characters,
}
use optimer.Lint.Usage.{check_for_include_what_you_use}
use optimer.Lint.Process.Line.{Source, empty_file_state, process_lines}

-- `read` is the text of a file or, for `-`, of stdin, `none` an IOError; `read_lines` the lines that
-- an open file gives. `root` is the pattern of --root, and `dos_lines` is os.linesep == '\r\n'.
pub record Environment : Type 0 where
  pub fs : FileSystem
  pub unicode : UnicodeData
  pub read : Text → Option Text
  pub read_lines : Text → Option (List Text)
  pub root : Option Regex
  pub dos_lines : Bool

abbrev pub ExtraCheck : Type 0
ExtraCheck = Text → CleansedLines → ℕ → List Event

-- the first and the last line of the list that is checked
unfoldable pub with_markers : List Text → List Text
with_markers lines =
    codes "// marker so line numbers and indices both start at 1" ∷ lines
    ++ codes "// marker so line numbers end in a known way" ∷ []

-- the check of the header guard; `none` where the search for the repository does not end
unfoldable pub guard_events : Text → List Text → Option Text → Option (List Event)
unfolding check_for_header_guard
guard_events filename lines none = none
guard_events filename lines (some cppvar) = some (check_for_header_guard filename lines cppvar)

-- The checks behind the copyright and the header guard: `guard` is the variable of a header.
unfoldable pub checked_lines : Environment → Source → List Text → Option (List Event)
unfolding remove_multi_line_comments cleansed_lines process_lines check_class_finished
    check_for_include_what_you_use check_for_unicode_replacement_characters check_for_newline_at_eof
checked_lines env src lines =
    let (lines', comments) = remove_multi_line_comments src.filename lines in
    let clean = cleansed_lines lines' in
    elim (process_lines src clean clean.num_lines 0 empty_file_state) [
      | none ↦ none
      | some (s, events) ↦ some (
          calls (
            comments
            ∷ events
            ∷ check_class_finished src.filename s.nesting_state
            ∷ check_for_include_what_you_use env.fs env.read_lines src.filename clean
                s.include_state
            ∷ check_for_unicode_replacement_characters src.filename lines'
            ∷ check_for_newline_at_eof src.filename lines'
            ∷ []))
    ]

-- what the checks ask about a file; a header has a variable
unfoldable pub source_of : Environment → List ExtraCheck → ℕ → Text → Text → Option Text → Source
unfolding repository_name
source_of env extra_checks verbose_level filename file_extension guard = record {
  filename = filename;
  file_extension = file_extension;
  guard = guard;
  repository = repository_name env.fs filename;
  verbose_level = verbose_level;
  unicode = env.unicode;
  extra_checks = extra_checks;
}

-- The events of a file, after `ResetNolintSuppressions`. `none` is a check that does not end.
unfoldable pub process_file_data :
    Environment → List ExtraCheck → ℕ → Text → Text → List Text → Option (List Event)
unfolding with_markers guard_events checked_lines source_of check_for_copyright
    get_header_guard_cpp_variable text_eq
process_file_data env extra_checks verbose_level filename file_extension lines =
    let marked = with_markers lines in
    let copyright = some (check_for_copyright filename marked) in
    let guard = get_header_guard_cpp_variable env.fs env.root filename in
    let checked = λ (variable : Option Text).
      checked_lines env (source_of env extra_checks verbose_level filename file_extension variable)
        marked in
    if text_eq file_extension (codes "h")
    then all_calls (copyright ∷ guard_events filename marked guard ∷ checked guard ∷ [])
    else all_calls (copyright ∷ checked none ∷ [])

-- What becomes of a run: a check does not end, an `assert` fails, or the state at the end.
pub data Run : Type 0 where
  endless : Run
  assertion_error : Run
  finished : LintState → Run

infixl 5 ◌>>=◌
abbrev pub ◌>>=◌ : Run → (LintState → Run) → Run
endless >>= rest = endless
assertion_error >>= rest = assertion_error
finished s >>= rest = rest s

abbrev pub asserted : Option LintState → Run
asserted none = assertion_error
asserted (some s) = finished s

-- the calls of `Error`, one after the other
unfoldable pub run_events : Option (List Event) → LintState → Run
run_events none s = endless
run_events (some es) s = asserted (handle_all es s)

-- sys.stderr.write
abbrev pub write : Text → LintState → LintState
write line s = record s { stderr = s.stderr ++ line ∷ [] }

-- line.rstrip('\r')
unfoldable pub strip_returns : Text → Text
strip_returns [] = []
strip_returns (c ∷ s) =
    let rest = strip_returns s in if c == 13 && is_empty rest then [] else c ∷ rest

-- filename[filename.rfind('.') + 1:]
unfoldable pub extension_of : Text → Text
unfolding split
extension_of filename = last_piece (split b'.' filename)

unfoldable pub is_checked : Text → Bool
unfolding text_eq member extension_of
is_checked filename =
    text_eq filename (codes "-")
    || member (extension_of filename) (codes "cc" ∷ codes "h" ∷ codes "cpp" ∷ codes "hpp" ∷ [])

-- the events of the carriage returns
unfoldable pub return_events : Bool → Text → Bool → List Event
return_events dos_lines filename carriage_return_found =
    complain filename 0 (carriage_return_found && not dos_lines) "whitespace/newline" 1
      (codes "One or more unexpected \\r (^M) found;better to use only a \\n")

-- the lines of a text that was read, as they are checked
unfoldable pub read_lines_of : Text → List Text
unfolding split strip_returns
read_lines_of text = map strip_returns (split b'\n' text)

unfoldable pub has_return : Text → Bool
unfolding split ends_with
has_return text = any (λ line. ends_with line (codes "\r")) (split b'\n' text)

-- the checks of a text that was read
unfoldable pub check_text : Environment → List ExtraCheck → Text → Text → LintState → Run
unfolding run_events process_file_data read_lines_of return_events has_return
    reset_nolint_suppressions extension_of
check_text env extra_checks filename text s =
    run_events
      (process_file_data env extra_checks s.verbose_level filename (extension_of filename)
        (read_lines_of text))
      (reset_nolint_suppressions s)
    >>= run_events (some (return_events env.dos_lines filename (has_return text)))

unfoldable pub process_text : Environment → List ExtraCheck → Text → Text → LintState → Run
unfolding is_checked check_text
process_text env extra_checks filename text s =
    if is_checked filename
    then check_text env extra_checks filename text s
    else finished (write (codes "Ignoring " ++ (filename ++ codes "; not a .cc or .h file\n")) s)

unfoldable pub process_file : Environment → List ExtraCheck → Text → ℕ → LintState → Run
unfolding set_verbose_level process_text
process_file env extra_checks filename vlevel s =
    let s1 = (set_verbose_level vlevel s).0 in
    elim (env.read filename) [
      | none ↦
          finished (
            write (codes "Skipping input '" ++ (filename ++ codes "': Can't open for reading\n"))
              s1)
      | some text ↦ process_text env extra_checks filename text s1 >>= λ t.
          finished (write (codes "Done processing " ++ (filename ++ codes "\n")) t)
    ]

-- the loop of `main` over the files
unfoldable pub process_files : Environment → List Text → LintState → Run
process_files env [] s = finished s
process_files env (filename ∷ filenames) s =
    process_file env [] filename s.verbose_level s >>= process_files env filenames
