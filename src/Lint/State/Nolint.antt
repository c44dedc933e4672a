-- ===== src/Lint/State/Nolint.antt =====
-- NOLINT in `ProcessLine` of tools/cpplint.py: what a suppression does to the errors behind it.
use mathlib.Core.Option
use optimer.Prelude.{
  Bool, Bool-cases, List, Option, Option-cases, [], ap, arith, false, if◌then◌else◌, inl, inr, none,
  refl, some, some_injective, sym, true, ℕ, ◌++◌, ◌==◌, ◌∙◌, ◌∷◌, ◌≡◌,
}
use optimer.Lint.Event.{Event, Report, error, parse_nolint_suppressions, suppress}
use optimer.Lint.State.{
  LintState, add_suppression, handle, handle_all, increment_error_count,
  is_error_suppressed_by_nolint, log_decided, log_error, should_print_error, suppressed_in,
}
use optimer.Text.{Text}
use optimer.Lint.Cleanse.{CleansedLines, line_at}
use optimer.Lint.Nesting.Update.{update}
use optimer.Lint.Process.Line.{FileState, Source, check_line, in_assembly, process_line}

-- the events but for the errors of a line
unfoldable pub without_line : ℕ → List Event → List Event
without_line line [] = []
without_line line (error r ∷ es) =
    let rest = without_line line es in if line == r.linenum then rest else error r ∷ rest
without_line line (suppress c l ∷ es) = suppress c l ∷ without_line line es

-- whether all errors of the line are suppressed
unfoldable pub all_suppressed : LintState → ℕ → Bool
all_suppressed s line = suppressed_in s.error_suppressions none line

should_print_error-suppressed :
    (s : LintState) (category : Text) (confidence line : ℕ)
    → all_suppressed s line ≡ true
    → should_print_error s category confidence line ≡ some false
unfolding should_print_error is_error_suppressed_by_nolint all_suppressed
should_print_error-suppressed s category confidence line h = ground (arith, h)

suppressions-log_decided :
    (o : Option Bool) (r : Report) (s t : LintState)
    → log_decided o r s ≡ some t
    → t.error_suppressions ≡ s.error_suppressions
unfolding log_decided increment_error_count
suppressions-log_decided none r s t e = cc
suppressions-log_decided (some false) r s t e =
    ap (λ (u : LintState). u.error_suppressions) (sym (some_injective e))
suppressions-log_decided (some true) r s t e =
    ap (λ (u : LintState). u.error_suppressions) (sym (some_injective e))

all_suppressed-log_error :
    (r : Report) (s t : LintState) (line : ℕ)
    → log_error r s ≡ some t
    → all_suppressed s line ≡ true
    → all_suppressed t line ≡ true
unfolding all_suppressed log_error
all_suppressed-log_error r s t line e h = rw (suppressions-log_decided _ r s t e) h

all_suppressed-add :
    (c : Option Text) (l : ℕ) (s : LintState) (line : ℕ)
    → all_suppressed s line ≡ true
    → all_suppressed (add_suppression c l s) line ≡ true
unfolding all_suppressed add_suppression suppressed_in
all_suppressed-add c l s line h = ground (arith, h)

handle-suppressed :
    (r : Report) (s : LintState) → all_suppressed s r.linenum ≡ true → handle (error r) s ≡ some s
unfolding handle log_error log_decided
handle-suppressed r s h =
    rw (log_error, should_print_error-suppressed s r.category r.confidence r.linenum h) refl

handle_suppress :
    (c : Option Text) (l : ℕ) (s : LintState)
    → handle (suppress c l) s ≡ some (add_suppression c l s)
unfolding handle
handle_suppress c l s = refl

suppress_next :
    (c : Option Text) (l : ℕ) (es es' : List Event) (s : LintState)
    → handle_all es (add_suppression c l s) ≡ handle_all es' (add_suppression c l s)
    → handle_all (suppress c l ∷ es) s ≡ handle_all (suppress c l ∷ es') s
unfolding handle_all handle Option.bind
suppress_next c l es es' s h = h

error_next :
    (r : Report) (es es' : List Event) (s : LintState)
    → ((t : LintState) → log_error r s ≡ some t → handle_all es t ≡ handle_all es' t)
    → handle_all (error r ∷ es) s ≡ handle_all (error r ∷ es') s
unfolding handle_all handle Option.bind
error_next r es es' s h = elim (Option-cases (log_error r s)) [
  | inr fails ↦ rw (handle_all, handle, fails) refl
  | inl (t, p) ↦ rw (handle_all, handle, p) (h t p)
]

error_passed :
    (r : Report) (es : List Event) (s : LintState)
    → handle (error r) s ≡ some s
    → handle_all (error r ∷ es) s ≡ handle_all es s
unfolding handle_all Option.bind
error_passed r es s h = rw (handle_all, h) refl

-- Once a line has a suppression for all categories, the errors that are reported for it have no
-- effect.
handle_all-without_line :
    (es : List Event) (s : LintState) (line : ℕ)
    → all_suppressed s line ≡ true
    → handle_all es s ≡ handle_all (without_line line es) s
unfolding without_line
handle_all-without_line [] s line h = refl
handle_all-without_line (suppress c l ∷ es) s line h =
    suppress_next c l es (without_line line es) s
      (handle_all-without_line es (add_suppression c l s) line (all_suppressed-add c l s line h))
handle_all-without_line (error r ∷ es) s line h = elim (Bool-cases (line == r.linenum)) [
  | inl e ↦
      let at : line ≡ r.linenum = ground (arith, e) in
      let same = handle-suppressed r s (rw (sym at) h) in
      rw e (error_passed r es s same ∙ handle_all-without_line es s line h)
  | inr e ↦ rw e (
      error_next r es (without_line line es) s
        λ t p. handle_all-without_line es t line (all_suppressed-log_error r s t line p h))
]

suppress-all_suppressed :
    (s : LintState) (line : ℕ) → all_suppressed (add_suppression none line s) line ≡ true
unfolding all_suppressed add_suppression suppressed_in
suppress-all_suppressed s line = ground arith

handle_all-suppress :
    (es : List Event) (s : LintState) (line : ℕ)
    → handle_all (suppress none line ∷ es) s
      ≡ handle_all (suppress none line ∷ without_line line es) s
handle_all-suppress es s line =
    suppress_next none line es (without_line line es) s (
      handle_all-without_line es (add_suppression none line s) line
        (suppress-all_suppressed s line))

-- The events of a line begin with those of its NOLINT.
process_line-begins :
    (src : Source) (clean : CleansedLines) (line : ℕ) (s s' : FileState) (events : List Event)
    → process_line src clean line s ≡ some (s', events)
    → (rest : List Event) × (events
        ≡ parse_nolint_suppressions src.filename (line_at clean.raw_lines line) line ++ rest)
unfolding process_line
process_line-begins src clean line s s' events h =
    let (nesting_state, nesting) = update src.filename clean line s.nesting_state in
    let entered = record s { nesting_state = nesting_state } in
    elim (Bool-cases (in_assembly nesting_state.stack)) [
      | inl asm ↦ (
        nesting,
        sym (
            ap (λ (p : FileState × List Event). p.1)
              (some_injective (rw (process_line, asm) at h))),
      )
      | inr plain ↦ elim (Option-cases (check_line src clean line entered)) [
        | inr endless ↦ absurd (cc (rw (process_line, plain, endless) at h))
        | inl ((s2, es), e) ↦ (
          nesting ++ es,
          sym (
              ap (λ (p : FileState × List Event). p.1)
                (some_injective (rw (process_line, plain, e) at h))),
        )
      ]
    ]

-- Where the text of a line holds a NOLINT for all categories, the errors that its checks and the
-- checks behind them report for this line have no effect.
pub process_line-nolint :
    (src : Source) (clean : CleansedLines) (line : ℕ) (s s' : FileState) (events more : List Event)
    (t : LintState)
    → parse_nolint_suppressions src.filename (line_at clean.raw_lines line) line
      ≡ suppress none line ∷ []
    → process_line src clean line s ≡ some (s', events)
    → handle_all (events ++ more) t ≡ handle_all (without_line line (events ++ more)) t
unfolding without_line
process_line-nolint src clean line s s' events more t nolint h =
    let (rest, begins) = process_line-begins src clean line s s' events h in
    rw (begins, nolint) (handle_all-suppress (rest ++ more) t line)
