-- ===== src/Lint/State/Counts.antt =====
-- The error counts of tools/cpplint.py: how they follow the errors that are printed.
use optimer.Prelude.{
  Bool, List, Option, Option-cases, [], arith, false, inl, inr, length, length-append, none, refl,
  some, some_injective, subst, true, ℕ, ◌+◌, ◌∙◌, ◌∷◌, ◌≡◌, ◌≢◌,
}
use optimer.Text.{Text}
use optimer.Lint.Event.{Event, Report, error, suppress}
use optimer.Lint.State.{
  Counting, LintState, add_suppression, bump, counted, detailed, format_report, handle, handle_all,
  log_decided, toplevel, total,
}

unfoldable pub sum_counts : List (Text × ℕ) → ℕ
sum_counts [] = 0
sum_counts ((c, n) ∷ rest) = n + sum_counts rest

sum_counts-bump :
    (category : Text) (counts : List (Text × ℕ))
    → sum_counts (bump category counts) ≡ sum_counts counts + 1
unfolding sum_counts bump
sum_counts-bump category [] = omega arith
sum_counts-bump category ((c, n) ∷ rest) = ground (arith, sum_counts-bump category rest)

sum_counts-counted :
    (style : Counting) (category : Text) (counts : List (Text × ℕ))
    → style ≢ total
    → sum_counts (counted style category counts) ≡ sum_counts counts + 1
unfolding counted
sum_counts-counted total category counts h = absurd (h refl)
sum_counts-counted toplevel category counts h = sum_counts-bump _ counts
sum_counts-counted detailed category counts h = sum_counts-bump category counts

-- What one run of events does to the counts: every error counted is a line written.
pub record Grows (s t : LintState) : Type 0 where
  pub lines : t.error_count + length s.stderr ≡ s.error_count + length t.stderr
  pub same_counting : t.counting ≡ s.counting
  pub sums :
      s.counting ≢ total
      → sum_counts t.errors_by_category + s.error_count
        ≡ sum_counts s.errors_by_category + t.error_count

Grows-refl : (s : LintState) → Grows s s
Grows-refl s = record { lines = refl; same_counting = refl; sums = λ h. refl }

Grows-trans : {s t u : LintState} → Grows s t → Grows t u → Grows s u
Grows-trans {s} {t} {u} g h = record {
  lines = omega (arith, g.lines, h.lines);
  same_counting = h.same_counting ∙ g.same_counting;
  sums = λ n. omega (arith, g.sums n, h.sums (rw g.same_counting n));
}

Grows-log_decided :
    (o : Option Bool) (r : Report) (s : LintState) {t : LintState}
    → log_decided o r s ≡ some t
    → Grows s t
unfolding log_decided
Grows-log_decided none r s h = cc
Grows-log_decided (some false) r s h = subst (Grows s) (some_injective h) (Grows-refl s)
Grows-log_decided (some true) r s h = subst (Grows s) (some_injective h) record {
  lines = omega (arith, length-append s.stderr (format_report s.output_format r ∷ []));
  same_counting = refl;
  sums = λ n. omega (arith, sum_counts-counted s.counting r.category s.errors_by_category n);
}

Grows-handle : (e : Event) (s : LintState) {t : LintState} → handle e s ≡ some t → Grows s t
unfolding handle add_suppression
Grows-handle (error r) s h = Grows-log_decided _ r s h
Grows-handle (suppress c l) s h =
    subst (Grows s) (some_injective h)
      record { lines = refl; same_counting = refl; sums = λ n. refl }

-- A run of events that does not fail counts as many errors as it writes lines. If the counting
-- style is not `total`, the counts by category grow by as much; the style stays.
pub Grows-handle_all :
    (es : List Event) (s : LintState) {t : LintState} → handle_all es s ≡ some t → Grows s t
unfolding handle_all
Grows-handle_all [] s h = subst (Grows s) (some_injective h) (Grows-refl s)
Grows-handle_all (e ∷ es) s h = elim (Option-cases (handle e s)) [
  | inl (u, p) ↦ Grows-trans (Grows-handle e s p) (Grows-handle_all es u (rw p at h))
  | inr p ↦ cc (rw p at h)
]
