-- ===== src/Lint/State/Filters.antt =====
-- The category filters of tools/cpplint.py: `SetFilters` and the loop of `_ShouldPrintError`.
use optimer.Prelude.{
  Bool, List, Option, [], arith, drop, false, if◌then◌else◌, leb, none, not, refl, some, true, ℕ,
  ◌&&◌, ◌++◌, ◌↔◌, ◌∙◌, ◌∷◌, ◌≡◌,
}
use optimer.Text.{Text, codes, split, starts_with}
use optimer.Lint.Category.{default_filters}
use optimer.Lint.Event.{Event, Report, error, suppress}
use optimer.Lint.State.{
  LintState, add_suppression, bad_filter, clean_filters, filter_loop, handle, handle_all, has_sign,
  is_error_suppressed_by_nolint, log_decided, set_filters, should_print_error,
}

abbrev pub AllSigned : List Text → Type 0
AllSigned [] = Unit
AllSigned (f ∷ fs) = (has_sign f ≡ true) × AllSigned fs

-- what the last filter that is a prefix of the category says, if there is one
unfoldable pub last_word : Text → List Text → Option Bool
last_word category [] = none
last_word category (f ∷ fs) = elim (last_word category fs) [
  | some v ↦ some v
  | none ↦ if starts_with category (drop 1 f) then some (starts_with f (codes "-")) else none
]

abbrev pub or_else : Option Bool → Bool → Bool
or_else none b = b
or_else (some v) b = v

-- no filter begins with both signs
minus_or_plus :
    (f : Text)
    → has_sign f ≡ true
    → starts_with f (codes "-") ≡ false
    → starts_with f (codes "+") ≡ true
minus_or_plus f h e = ground arith

filter_loop-last_word :
    (category : Text) (b : Bool) (fs : List Text)
    → AllSigned fs
    → filter_loop category b fs ≡ some (or_else (last_word category fs) b)
unfolding filter_loop last_word
filter_loop-last_word category b [] h = refl
filter_loop-last_word category b (f ∷ fs) h = ground (
  arith,
  filter_loop-last_word category (if starts_with category (drop 1 f) then true else b) fs h.1,
  filter_loop-last_word category (if starts_with category (drop 1 f) then false else b) fs h.1,
  minus_or_plus f h.0,
)

-- Where every filter begins with a sign, an error is printed exactly when no NOLINT suppresses it,
-- its confidence reaches the verbosity, and the last filter that is a prefix of its category, if
-- there is one, is not a `-` filter.
pub should_print_error-last_word :
    (s : LintState) (category : Text) (confidence linenum : ℕ)
    → AllSigned s.filters
    → should_print_error s category confidence linenum
      ≡ some (
          not (is_error_suppressed_by_nolint s category linenum)
          && (leb s.verbose_level confidence && not (or_else (last_word category s.filters) false)))
unfolding should_print_error
should_print_error-last_word s category confidence linenum h =
    ground (arith, filter_loop-last_word category false s.filters h)

bad_filter-AllSigned : (fs : List Text) → bad_filter fs ≡ none → AllSigned fs
unfolding bad_filter
bad_filter-AllSigned [] h = tt
bad_filter-AllSigned (f ∷ fs) h = ground (arith, bad_filter-AllSigned fs)

AllSigned-bad_filter : (fs : List Text) → AllSigned fs → bad_filter fs ≡ none
unfolding bad_filter
AllSigned-bad_filter [] h = refl
AllSigned-bad_filter (f ∷ fs) h = ground (arith, AllSigned-bad_filter fs h.1)

-- `SetFilters` raises no error exactly when every filter that it has stored begins with a sign.
pub set_filters_iff :
    (text : Text) (s : LintState)
    → ((set_filters text s).1 ≡ none) ↔ AllSigned (set_filters text s).0.filters
unfolding set_filters
set_filters_iff text s =
    let filters = default_filters ++ clean_filters (split b',' text) in
    (
      λ h. bad_filter-AllSigned filters (ground (arith, h)),
      λ h. ground (arith, AllSigned-bad_filter filters h),
    )

filters-log_decided :
    (o : Option Bool) {b : Bool} (r : Report) (s : LintState)
    → o ≡ some b
    → (t : LintState) × (log_decided o r s ≡ some t) × (t.filters ≡ s.filters)
unfolding log_decided
filters-log_decided none r s e = cc
filters-log_decided (some false) r s e = (s, refl, refl)
filters-log_decided (some true) r s e = (_, refl, refl)

filters-handle :
    (e : Event) (s : LintState)
    → AllSigned s.filters
    → (t : LintState) × (handle e s ≡ some t) × (t.filters ≡ s.filters)
unfolding handle
filters-handle (suppress c l) s h = (add_suppression c l s, refl, unfold add_suppression in refl)
filters-handle (error r) s h =
    let e = should_print_error-last_word s r.category r.confidence r.linenum h in
    filters-log_decided _ r s e

-- From a state whose filters all begin with a sign, no run of events fails the `assert` of
-- `_ShouldPrintError`, and the filters stay.
pub handle_all-total :
    (es : List Event) (s : LintState)
    → AllSigned s.filters
    → (t : LintState) × (handle_all es s ≡ some t) × (t.filters ≡ s.filters)
unfolding handle_all
handle_all-total [] s h = (s, refl, refl)
handle_all-total (e ∷ es) s h =
    let (t, p, q) = filters-handle e s h in
    let (u, p', q') = handle_all-total es t (rw q h) in (u, rw p p', q' ∙ q)
