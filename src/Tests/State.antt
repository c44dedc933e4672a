-- ===== src/Tests/State.antt =====
-- Filters, suppressions, counts, includes and function lengths of tools/cpplint.py.
use optimer.Prelude.{
  List, [], arith, false, leb, none, not, refl, some, suc, true, ◌&&◌, ◌*◌, ◌<◌, ◌==◌, ◌^◌, ◌||◌,
  ◌↔◌, ◌∷◌, ◌≡◌, ◌≤◌,
}
use optimer.Text.{codes, starts_with, text_eq}
use optimer.Lint.Event.{Report, error, parse_nolint_suppressions, suppress}
use optimer.Lint.State.{
  LintState, add_suppression, format_report, handle, handle_all, initial,
  is_error_suppressed_by_nolint, set_filters, should_print_error,
}
use optimer.Lint.State.Suppressions.{covers, suppressed-add}
use optimer.Lint.State.Filters.{
  AllSigned, last_word, or_else, set_filters_iff, should_print_error-last_word,
}
use optimer.Lint.State.Counts.{Grows, Grows-handle_all}
use optimer.Lint.Include.{
  HeaderType, c_sys_header, check_next_include_order, cpp_sys_header, empty_include_state,
  likely_my_header, other_h_section,
}
use optimer.Lint.Include.Order.{in_order, quiet, quiet-in_order, section-check_next_include_order}
use optimer.Lint.Function.{error_level}
use optimer.Lint.Function.Length.{error_level_bounds}

abbrev tab : Report
tab = record {
  filename = codes "a.cc";
  linenum = 3;
  category = codes "whitespace/tab";
  confidence = 1;
  message = codes "Tab found";
}

nolint_read :
    parse_nolint_suppressions (codes "a.cc") (codes "x;  // NOLINT(whitespace/tab)") 3
    ≡ suppress (some (codes "whitespace/tab")) 3 ∷ []
unfolding parse_nolint_suppressions
nolint_read = refl

abbrev quiet_line : LintState
quiet_line = add_suppression (some (codes "whitespace/tab")) 3 initial

suppressed-add_example : is_error_suppressed_by_nolint quiet_line (codes "whitespace/tab") 3 ≡ (
    (covers (some (codes "whitespace/tab")) (codes "whitespace/tab") && 3 == 3)
    || is_error_suppressed_by_nolint initial (codes "whitespace/tab") 3)
suppressed-add_example =
    suppressed-add (some (codes "whitespace/tab")) 3 initial (codes "whitespace/tab") 3

other_line_printed : should_print_error quiet_line (codes "whitespace/tab") 1 4 ≡ some true
unfolding should_print_error add_suppression text_eq
other_line_printed = refl

abbrev filtered : LintState
filtered = record initial { filters = codes "-whitespace" ∷ codes "+whitespace/tab" ∷ [] }

filtered_signed : AllSigned filtered.filters
unfolding starts_with
filtered_signed = (refl, (refl, tt))

should_print_error-last_word_example :
    should_print_error filtered (codes "whitespace/tab") 1 4
    ≡ some (
        not (is_error_suppressed_by_nolint filtered (codes "whitespace/tab") 4)
        && (leb filtered.verbose_level 1
            && not (or_else (last_word (codes "whitespace/tab") filtered.filters) false)))
should_print_error-last_word_example =
    should_print_error-last_word filtered (codes "whitespace/tab") 1 4 filtered_signed

set_filters_iff_example :
    ((set_filters (codes "-whitespace, build") initial).1 ≡ none)
    ↔ AllSigned (set_filters (codes "-whitespace, build") initial).0.filters
set_filters_iff_example = set_filters_iff (codes "-whitespace, build") initial

abbrev after_tab : LintState
after_tab = record filtered {
  error_count = 1;
  stderr = codes "a.cc:3:  Tab found  [whitespace/tab] [1]\n" ∷ [];
}

tab_handled : handle_all (error tab ∷ []) filtered ≡ some after_tab
unfolding handle_all handle format_report
tab_handled = refl

Grows-handle_all_example : Grows filtered after_tab
Grows-handle_all_example = Grows-handle_all (error tab ∷ []) filtered tab_handled

abbrev headers : List HeaderType
headers = likely_my_header ∷ c_sys_header ∷ cpp_sys_header ∷ c_sys_header ∷ []

quiet-in_order_example : quiet empty_include_state headers ≡ in_order headers
quiet-in_order_example = quiet-in_order headers

section-check_next_include_order_example :
    (0 ≤ (check_next_include_order cpp_sys_header empty_include_state).0.section)
    × ((check_next_include_order cpp_sys_header empty_include_state).0.section ≤ other_h_section)
section-check_next_include_order_example =
    section-check_next_include_order cpp_sys_header empty_include_state (omega arith)

error_level_bounds_example :
    (1 ≤ error_level 1200 250)
    × (error_level 1200 250 ≤ 5)
    × (250 * 2 ^ error_level 1200 250 ≤ 1200)
    × (error_level 1200 250 < 5 → 1200 < 250 * 2 ^ suc (error_level 1200 250))
error_level_bounds_example = error_level_bounds 250 1 1200 (omega arith) (omega arith) (omega arith)
