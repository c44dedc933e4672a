-- ===== src/Lint/State/Suppressions.antt =====
-- NOLINT suppressions of tools/cpplint.py: what one more of them changes.
use optimer.Prelude.{Bool, Option, arith, false, none, refl, some, true, ℕ, ◌&&◌, ◌==◌, ◌||◌, ◌≡◌}
use optimer.Text.{Text, text_eq}
use optimer.Lint.State.{
  LintState, add_suppression, is_error_suppressed_by_nolint, reset_nolint_suppressions,
  should_print_error,
}

-- A suppression with no category is for all.
abbrev pub covers : Option Text → Text → Bool
covers none category = true
covers (some c) category = text_eq c category

-- An error is suppressed after `add` exactly when the new suppression is for its line and covers
-- its category, or it was suppressed before.
pub suppressed-add :
    (c : Option Text) (line : ℕ) (s : LintState) (category : Text) (linenum : ℕ)
    → is_error_suppressed_by_nolint (add_suppression c line s) category linenum
      ≡ ((covers c category && line == linenum) || is_error_suppressed_by_nolint s category linenum)
unfolding is_error_suppressed_by_nolint add_suppression
suppressed-add none line s category linenum = ground arith
suppressed-add (some c) line s category linenum = ground arith

-- After a reset nothing is suppressed.
pub suppressed-reset :
    (s : LintState) (category : Text) (linenum : ℕ)
    → is_error_suppressed_by_nolint (reset_nolint_suppressions s) category linenum ≡ false
unfolding is_error_suppressed_by_nolint reset_nolint_suppressions
suppressed-reset s category linenum = refl

-- One more suppression prints no error that was not printed before.
should_print_error-add :
    (c : Option Text) (line : ℕ) (s : LintState) (category : Text) (confidence linenum : ℕ)
    → should_print_error (add_suppression c line s) category confidence linenum ≡ some true
    → should_print_error s category confidence linenum ≡ some true
unfolding should_print_error add_suppression
should_print_error-add c line s category confidence linenum h = ground (arith, h)
