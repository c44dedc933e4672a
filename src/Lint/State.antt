-- ===== src/Lint/State.antt =====
-- `_CppLintState`, the error suppressions and `Error` of tools/cpplint.py. The module's globals and
-- what is written to stderr are one record. `none` is a failed `assert`.
use mathlib.Core.Option
pub mod Suppressions
pub mod Nolint
pub mod Filters
pub mod Counts
use optimer.Prelude.{
  Bool, List, Option, [], drop, false, if◌then◌else◌, ltb, none, not, some, true, ℕ, ◌&&◌, ◌++◌,
  ◌+◌, ◌==◌, ◌||◌, ◌∷◌,
}
use optimer.Lint.Event.{Event, Report, error, suppress}
use optimer.Text.{Text, codes, decimal, is_empty, split, starts_with, strip, text_eq}
use optimer.Lint.Category.{default_filters}

-- The values of `counting` and `output_format` that `ParseArguments` lets through.
pub data Counting : Type 0 where
  total : Counting
  toplevel : Counting
  detailed : Counting

pub data OutputFormat : Type 0 where
  emacs : OutputFormat
  vs7 : OutputFormat

pub record LintState : Type 0 where
  pub verbose_level : ℕ
  pub error_count : ℕ
  pub filters : List Text
  pub counting : Counting
  pub errors_by_category : List (Text × ℕ)
  pub output_format : OutputFormat
  pub error_suppressions : List (Option Text × ℕ)
  pub stderr : List Text

abbrev pub initial : LintState
initial = record {
  verbose_level = 1;
  error_count = 0;
  filters = default_filters;
  counting = total;
  errors_by_category = [];
  output_format = emacs;
  error_suppressions = [];
  stderr = [];
}

unfoldable pub reset_nolint_suppressions : LintState → LintState
reset_nolint_suppressions s = record s { error_suppressions = [] }

-- _error_suppressions.setdefault(category, set()).add(linenum): a set of pairs
unfoldable pub add_suppression : Option Text → ℕ → LintState → LintState
add_suppression category linenum s = record s {
  error_suppressions = (category, linenum) ∷ s.error_suppressions;
}

abbrev pub same_category : Option Text → Option Text → Bool
same_category none none = true
same_category none (some b) = false
same_category (some a) none = false
same_category (some a) (some b) = text_eq a b

-- linenum in _error_suppressions.get(category, set())
unfoldable pub suppressed_in : List (Option Text × ℕ) → Option Text → ℕ → Bool
suppressed_in [] category linenum = false
suppressed_in ((c, l) ∷ rest) category linenum =
    (same_category c category && l == linenum) || suppressed_in rest category linenum

unfoldable pub is_error_suppressed_by_nolint : LintState → Text → ℕ → Bool
unfolding suppressed_in
is_error_suppressed_by_nolint s category linenum =
    suppressed_in s.error_suppressions (some category) linenum
    || suppressed_in s.error_suppressions none linenum

-- The previous level is returned.
unfoldable pub set_verbose_level : ℕ → LintState → LintState × ℕ
set_verbose_level level s = (record s { verbose_level = level }, s.verbose_level)

unfoldable pub set_output_format : OutputFormat → LintState → LintState
set_output_format format s = record s { output_format = format }

unfoldable pub set_counting_style : Counting → LintState → LintState
set_counting_style style s = record s { counting = style }

-- the filters of the flag that are not blank, in order
unfoldable pub clean_filters : List Text → List Text
clean_filters [] = []
clean_filters (f ∷ fs) =
    let clean = strip f in
    let rest = clean_filters fs in if is_empty clean then rest else clean ∷ rest

abbrev pub has_sign : Text → Bool
has_sign f = starts_with f (codes "+") || starts_with f (codes "-")

-- the first filter with no sign, for which `ValueError` is raised
unfoldable pub bad_filter : List Text → Option Text
unfolding starts_with
bad_filter [] = none
bad_filter (f ∷ fs) = if has_sign f then bad_filter fs else some f

filter_error : Option Text → Option Text
filter_error none = none
filter_error (some f) =
    some (codes "Every filter in --filters must start with + or - (" ++ f ++ codes " does not)")

-- The filters are stored before they are checked. The second part is the message of the error.
unfoldable pub set_filters : Text → LintState → LintState × Option Text
unfolding clean_filters bad_filter filter_error
set_filters text s =
    let filters = default_filters ++ clean_filters (split b',' text) in
    (record s { filters = filters }, filter_error (bad_filter filters))

unfoldable pub reset_error_counts : LintState → LintState
reset_error_counts s = record s { error_count = 0; errors_by_category = [] }

-- errors_by_category[category] += 1, from 0 if the key is new
unfoldable pub bump : Text → List (Text × ℕ) → List (Text × ℕ)
bump category [] = (category, 1) ∷ []
bump category ((c, n) ∷ rest) =
    if text_eq c category then (c, n + 1) ∷ rest else (c, n) ∷ bump category rest

-- category.split('/')[0]
abbrev pub first_piece : List Text → Text
first_piece [] = []
first_piece (t ∷ ts) = t

unfoldable pub counted : Counting → Text → List (Text × ℕ) → List (Text × ℕ)
unfolding bump split
counted total category counts = counts
counted toplevel category counts = bump (first_piece (split b'/' category)) counts
counted detailed category counts = bump category counts

unfoldable pub increment_error_count : Text → LintState → LintState
unfolding counted
increment_error_count category s = record s {
  error_count = s.error_count + 1;
  errors_by_category = counted s.counting category s.errors_by_category;
}

-- The loop over the filters, with the flag so far.
unfoldable pub filter_loop : Text → Bool → List Text → Option Bool
unfolding starts_with
filter_loop category is_filtered [] = some is_filtered
filter_loop category is_filtered (f ∷ fs) =
    if starts_with f (codes "-")
    then filter_loop category (if starts_with category (drop 1 f) then true else is_filtered) fs
    else if starts_with f (codes "+")
    then filter_loop category (if starts_with category (drop 1 f) then false else is_filtered) fs
    else none

unfoldable pub should_print_error : LintState → Text → ℕ → ℕ → Option Bool
unfolding is_error_suppressed_by_nolint filter_loop
should_print_error s category confidence linenum =
    if is_error_suppressed_by_nolint s category linenum
    then some false
    else if ltb confidence s.verbose_level
    then some false
    else Option.map not (filter_loop category false s.filters)

-- the line that is written for an error
unfoldable pub format_report : OutputFormat → Report → Text
unfolding decimal
format_report format r =
    r.filename
    ++ (elim format [
      | vs7 ↦ codes "(" ++ decimal r.linenum ++ codes "):  "
      | emacs ↦ codes ":" ++ decimal r.linenum ++ codes ":  "
    ])
    ++ r.message
    ++ codes "  ["
    ++ r.category
    ++ codes "] ["
    ++ decimal r.confidence
    ++ codes "]\n"

-- what `Error` does once `_ShouldPrintError` has answered
log_decided : Option Bool → Report → LintState → Option LintState
unfolding increment_error_count
log_decided none r s = none
log_decided (some false) r s = some s
log_decided (some true) r s =
    let t = increment_error_count r.category s in
    some (record t { stderr = t.stderr ++ format_report t.output_format r ∷ [] })

-- `Error`
unfoldable pub log_error : Report → LintState → Option LintState
unfolding should_print_error log_decided
log_error r s = log_decided (should_print_error s r.category r.confidence r.linenum) r s

unfoldable pub handle : Event → LintState → Option LintState
unfolding log_error add_suppression
handle (error r) s = log_error r s
handle (suppress category linenum) s = some (add_suppression category linenum s)

unfoldable pub handle_all : List Event → LintState → Option LintState
unfolding Option.bind
handle_all [] s = some s
handle_all (e ∷ es) s = Option.bind (handle e s) (handle_all es)

unfoldable pub count_lines : List (Text × ℕ) → List Text
count_lines [] = []
count_lines ((category, n) ∷ rest) =
    (codes "Category '" ++ category ++ codes "' errors found: " ++ decimal n ++ codes "\n")
    ∷ count_lines rest

unfoldable pub print_error_counts : LintState → LintState
unfolding count_lines decimal
print_error_counts s = record s {
  stderr =
      s.stderr
      ++ count_lines s.errors_by_category
      ++ (codes "Total errors found: " ++ decimal s.error_count ++ codes "\n") ∷ [];
}
