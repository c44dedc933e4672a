-- ===== src/Lint/Process/Counts.antt =====
-- `ProcessFile` of tools/cpplint.py: how the counts follow the lines that are written.
use optimer.Prelude.{
  Bool-cases, List, Option, Option-cases, [], arith, if◌then◌else◌, inl, inr, length, length-append,
  none, refl, some, ℕ, ◌+◌, ◌∙◌, ◌∷◌, ◌≡◌, ◌≢◌,
}
use optimer.Text.{Text}
use optimer.Lint.Event.{Event}
use optimer.Lint.State.{LintState, handle_all, reset_nolint_suppressions, set_verbose_level, total}
use optimer.Lint.State.Counts.{Grows, Grows-handle_all, sum_counts}
use optimer.Lint.Process.{
  Environment, ExtraCheck, Run, assertion_error, check_text, endless, finished, has_return,
  is_checked, process_file, process_files, process_text, return_events, run_events, write, ◌>>=◌,
}

-- the notices about a file that was read, but for that of the end
unfoldable pub text_notices : Text → ℕ
text_notices filename = if is_checked filename then 0 else 1

-- the number of notices about a file
unfoldable pub notices : (Text → Option Text) → Text → ℕ
unfolding text_notices
notices read filename = elim (read filename) [ none ↦ 1 | some text ↦ text_notices filename + 1 ]

unfoldable pub all_notices : (Text → Option Text) → List Text → ℕ
unfolding notices
all_notices read [] = 0
all_notices read (filename ∷ filenames) = notices read filename + all_notices read filenames

-- What a run does to the counts that writes so many lines besides its errors.
pub record Counted (extra : ℕ) (s t : LintState) : Type 0 where
  pub lines : t.error_count + length s.stderr + extra ≡ s.error_count + length t.stderr
  pub same_counting : t.counting ≡ s.counting
  pub sums :
      s.counting ≢ total
      → sum_counts t.errors_by_category + s.error_count
        ≡ sum_counts s.errors_by_category + t.error_count

Counted-trans : (m n : ℕ) {s t u : LintState} → Counted m s t → Counted n t u → Counted (m + n) s u
Counted-trans m n {s} {t} {u} g h = record {
  lines = omega (arith, g.lines, h.lines);
  same_counting = h.same_counting ∙ g.same_counting;
  sums = λ c. omega (arith, g.sums c, h.sums (rw g.same_counting c));
}

Counted-Grows : {s t : LintState} → Grows s t → Counted 0 s t
Counted-Grows g = record {
  lines = omega (arith, g.lines);
  same_counting = g.same_counting;
  sums = g.sums;
}

Counted-write : (line : Text) (s : LintState) → Counted 1 s (write line s)
Counted-write line s = record {
  lines = omega (arith, length-append s.stderr (line ∷ []));
  same_counting = refl;
  sums = λ c. refl;
}

-- Every state in which a run may finish is counted.
unfoldable pub Counts : ℕ → LintState → Run → Type 0
Counts extra s endless = Unit
Counts extra s assertion_error = Unit
Counts extra s (finished t) = Counted extra s t

Counts-after :
    (m n : ℕ) (s t : LintState) (r : Run) → Counted m s t → Counts n t r → Counts (m + n) s r
unfolding Counts
Counts-after m n s t endless h h' = tt
Counts-after m n s t assertion_error h h' = tt
Counts-after m n s t (finished u) h h' = Counted-trans m n h h'

Counts-chain :
    (m n : ℕ) (s : LintState) (r : Run) (rest : LintState → Run)
    → Counts m s r
    → ((t : LintState) → Counts n t (rest t))
    → Counts (m + n) s (r >>= rest)
unfolding Counts
Counts-chain m n s endless rest h k = tt
Counts-chain m n s assertion_error rest h k = tt
Counts-chain m n s (finished t) rest h k = Counts-after m n s t (rest t) h (k t)

Counts-run_events : (es : Option (List Event)) (s : LintState) → Counts 0 s (run_events es s)
unfolding Counts run_events
Counts-run_events none s = tt
Counts-run_events (some es) s = elim (Option-cases (handle_all es s)) [
  | inr e ↦ rw e tt
  | inl (t, e) ↦ rw e (Counted-Grows (Grows-handle_all es s e))
]

Counts-write : (line : Text) (s : LintState) → Counts 1 s (finished (write line s))
unfolding Counts
Counts-write line s = Counted-write line s

reset_counted : (s : LintState) (r : Run) → Counts 0 (reset_nolint_suppressions s) r → Counts 0 s r
unfolding Counts reset_nolint_suppressions
reset_counted s endless h = h
reset_counted s assertion_error h = h
reset_counted s (finished t) h = record {
  lines = h.lines;
  same_counting = h.same_counting;
  sums = h.sums;
}

level_counted :
    (m level : ℕ) (s : LintState) (r : Run)
    → Counts m (set_verbose_level level s).0 r
    → Counts m s r
unfolding Counts set_verbose_level
level_counted m level s endless h = h
level_counted m level s assertion_error h = h
level_counted m level s (finished t) h = record {
  lines = h.lines;
  same_counting = h.same_counting;
  sums = h.sums;
}

Counts-check_text :
    (env : Environment) (extra_checks : List ExtraCheck) (filename text : Text) (s : LintState)
    → Counts 0 s (check_text env extra_checks filename text s)
unfolding check_text
Counts-check_text env extra_checks filename text s =
    Counts-chain 0 0 s _ _ (reset_counted s _ (Counts-run_events _ (reset_nolint_suppressions s)))
      (Counts-run_events (some (return_events env.dos_lines filename (has_return text))))

Counts-process_text :
    (env : Environment) (extra_checks : List ExtraCheck) (filename text : Text) (s : LintState)
    → Counts (text_notices filename) s (process_text env extra_checks filename text s)
unfolding process_text text_notices
Counts-process_text env extra_checks filename text s = elim (Bool-cases (is_checked filename)) [
  | inr ignored ↦ rw (process_text, text_notices, ignored) (Counts-write _ s)
  | inl read ↦
      rw (process_text, text_notices, read) (Counts-check_text env extra_checks filename text s)
]

Counts-process_file :
    (env : Environment) (extra_checks : List ExtraCheck) (filename : Text) (vlevel : ℕ)
    (s : LintState)
    → Counts (notices env.read filename) s (process_file env extra_checks filename vlevel s)
unfolding process_file notices
Counts-process_file env extra_checks filename vlevel s =
    let s1 = (set_verbose_level vlevel s).0 in
    elim (Option-cases (env.read filename)) [
      | inr none_read ↦
          rw (process_file, notices, none_read) (level_counted 1 vlevel s _ (Counts-write _ s1))
      | inl (text, e) ↦
          rw (process_file, notices, e)
            (level_counted (text_notices filename + 1) vlevel s _ (
              Counts-chain (text_notices filename) 1 s1 _ _
                (Counts-process_text env extra_checks filename text s1) λ t. Counts-write _ t))
    ]

pub Counts-process_files :
    (env : Environment) (filenames : List Text) (s : LintState)
    → Counts (all_notices env.read filenames) s (process_files env filenames s)
unfolding process_files all_notices
Counts-process_files env [] s =
    unfold Counts in record { lines = omega arith; same_counting = refl; sums = λ c. refl }
Counts-process_files env (filename ∷ filenames) s =
    Counts-chain (notices env.read filename) (all_notices env.read filenames) s _ _
      (Counts-process_file env [] filename s.verbose_level s) (Counts-process_files env filenames)
