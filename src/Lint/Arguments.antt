-- ===== src/Lint/Arguments.antt =====
-- `ParseArguments`, `PrintUsage`, `PrintCategories` and `main` of tools/cpplint.py. `getopt`, `int`
-- and the compilation of --root are parameters.
pub mod Safety
pub mod Counts
use optimer.Prelude.{List, Option, [], if◌then◌else◌, ltb, none, some, ℕ, ◌++◌, ◌∷◌}
use optimer.Text.{Text, codes, is_empty, text_eq}
use optimer.Regex.{Regex, opt}
use optimer.Lint.Category.{error_categories}
use optimer.Lint.State.{
  Counting, LintState, OutputFormat, detailed, emacs, print_error_counts, reset_error_counts,
  set_counting_style, set_filters, set_output_format, set_verbose_level, toplevel, total, vs7,
}
use optimer.Lint.Process.{
  Environment, Run, assertion_error, endless, finished, process_files, write,
}

-- `getopt` gives the options with their values and the rest of the arguments, and `none` is a
-- GetoptError; `int_of` is int(val), and `none` a ValueError.
pub record Shell : Type 0 where
  pub getopt : List Text → Option (List (Text × Text) × List Text)
  pub int_of : Text → Option ℕ
  pub pattern_of : Text → Regex

-- what the options are parsed into
pub record Options : Type 0 where
  pub verbosity : ℕ
  pub output_format : OutputFormat
  pub filters : Text
  pub counting_style : Counting
  pub root : Option Text

-- How the parsing of arguments ends: with the usage and a message, the categories, a ValueError with
-- its message, or a value.
pub data Parsed {ℓ} (A : Type ℓ) : Type ℓ where
  usage : Option Text → Parsed A
  categories : Parsed A
  value_error : Text → Parsed A
  parsed : A → Parsed A

infixl 5 ◌>>=◌
abbrev pub ◌>>=◌ {ℓ κ} : {A : Type ℓ} {B : Type κ} → Parsed A → (A → Parsed B) → Parsed B
usage message >>= rest = usage message
categories >>= rest = categories
value_error message >>= rest = value_error message
parsed a >>= rest = rest a

set_output : Text → Options → Parsed Options
unfolding text_eq
set_output val o =
    if text_eq val (codes "emacs")
    then parsed (record o { output_format = emacs })
    else if text_eq val (codes "vs7")
    then parsed (record o { output_format = vs7 })
    else usage (some (codes "The only allowed output formats are emacs and vs7."))

set_verbosity : Option ℕ → Options → Parsed Options
set_verbosity none o = value_error (codes "invalid literal for int() with base 10")
set_verbosity (some n) o = parsed (record o { verbosity = n })

set_counting : Text → Options → Parsed Options
unfolding text_eq
set_counting val o =
    if text_eq val (codes "total")
    then parsed (record o { counting_style = total })
    else if text_eq val (codes "toplevel")
    then parsed (record o { counting_style = toplevel })
    else if text_eq val (codes "detailed")
    then parsed (record o { counting_style = detailed })
    else usage (some (codes "Valid counting options are total, toplevel, and detailed"))

-- An option that `getopt` does not know does not come; it would be passed over.
unfoldable pub apply_option : Shell → Text × Text → Options → Parsed Options
unfolding text_eq set_output set_verbosity set_counting
apply_option shell (opt, val) o =
    if text_eq opt (codes "--help")
    then usage none
    else if text_eq opt (codes "--output")
    then set_output val o
    else if text_eq opt (codes "--verbose")
    then set_verbosity (shell.int_of val) o
    else if text_eq opt (codes "--filter")
    then (if is_empty val then categories else parsed (record o { filters = val }))
    else if text_eq opt (codes "--counting")
    then set_counting val o
    else if text_eq opt (codes "--root")
    then parsed (record o { root = some val })
    else parsed o

unfoldable pub apply_options : Shell → List (Text × Text) → Options → Parsed Options
unfolding apply_option
apply_options shell [] o = parsed o
apply_options shell (opt ∷ opts) o = apply_option shell opt o >>= apply_options shell opts

-- With no --counting the style is '', which counts as `total` does.
abbrev pub default_options : LintState → Options
default_options s = record {
  verbosity = s.verbose_level;
  output_format = s.output_format;
  filters = [];
  counting_style = total;
  root = none;
}

unfoldable pub stored : Options → LintState × Option Text → Parsed LintState
unfolding set_counting_style
stored o (s, none) = parsed (set_counting_style o.counting_style s)
stored o (s, some message) = value_error message

-- the options in the state, in the order of the calls
unfoldable pub store_options : Options → LintState → Parsed LintState
unfolding set_output_format set_verbose_level set_filters stored
store_options o s =
    stored o (
      set_filters o.filters (set_verbose_level o.verbosity (set_output_format o.output_format s)).0)

-- what `main` goes on with
pub record Command : Type 0 where
  pub filenames : List Text
  pub root : Option Text
  pub state : LintState

unfoldable pub finish_parsing : LintState → List Text → Options → Parsed Command
unfolding store_options
finish_parsing s [] o = usage (some (codes "No files were specified."))
finish_parsing s (f ∷ fs) o =
    store_options o s >>= λ t. parsed (record { filenames = f ∷ fs; root = o.root; state = t })

unfoldable pub parse_arguments : Shell → List Text → LintState → Parsed Command
unfolding apply_options finish_parsing
parse_arguments shell args s = elim (shell.getopt args) [
  | none ↦ usage (some (codes "Invalid arguments."))
  | some (opts, filenames) ↦
      apply_options shell opts (default_options s) >>= finish_parsing s filenames
]

-- How the program ends: as the run of a file ends that does not finish, or with a status and the
-- state.
pub data Exit : Type 0 where
  hangs : Exit
  fails : Exit
  raises : Text → Exit
  exits : ℕ → LintState → Exit

-- _USAGE, which is not read again
usage_lines : Text → Option Text → List Text
usage_lines text none = text ∷ []
usage_lines text (some message) = text ∷ (codes "\nFATAL ERROR: " ++ (message ++ codes "\n")) ∷ []

-- `PrintUsage`: sys.exit with a message writes it and ends with 1, as does sys.exit(1).
unfoldable pub print_usage : Text → Option Text → LintState → Exit
unfolding usage_lines
print_usage text message s = exits 1 (record s { stderr = s.stderr ++ usage_lines text message })

category_lines : List Text → Text
category_lines [] = []
category_lines (c ∷ cs) = codes "  " ++ (c ++ (codes "\n" ++ category_lines cs))

unfoldable pub print_categories : LintState → Exit
unfolding category_lines
print_categories s = exits 0 (write (category_lines error_categories) s)

-- int(error_count > 0)
unfoldable pub exit_status : ℕ → ℕ
exit_status error_count = if ltb 0 error_count then 1 else 0

-- sys.exit(_cpplint_state.error_count > 0), behind the counts
unfoldable pub exit_run : Run → Exit
unfolding exit_status print_error_counts
exit_run endless = hangs
exit_run assertion_error = fails
exit_run (finished s) = exits (exit_status s.error_count) (print_error_counts s)

-- the pattern of --root, where it is given and not empty
unfoldable pub root_pattern : Shell → Option Text → Option Regex
root_pattern shell none = none
root_pattern shell (some []) = none
root_pattern shell (some (c ∷ root)) = some (shell.pattern_of (c ∷ root))

-- the files behind a call of `ResetErrorCounts`
unfoldable pub run_command : Shell → Environment → Command → Exit
unfolding exit_run root_pattern reset_error_counts process_files
run_command shell env c = exit_run (
    process_files (record env { root = root_pattern shell c.root }) c.filenames
      (reset_error_counts c.state))

-- what `main` does with the parsed arguments; `usage_text` is _USAGE
unfoldable pub after_parsing : Shell → Environment → Text → LintState → Parsed Command → Exit
unfolding print_usage print_categories run_command
after_parsing shell env usage_text s (usage message) = print_usage usage_text message s
after_parsing shell env usage_text s categories = print_categories s
after_parsing shell env usage_text s (value_error message) = raises message
after_parsing shell env usage_text s (parsed c) = run_command shell env c

unfoldable pub main : Shell → Environment → Text → List Text → LintState → Exit
unfolding parse_arguments after_parsing
main shell env usage_text args s =
    after_parsing shell env usage_text s (parse_arguments shell args s)
