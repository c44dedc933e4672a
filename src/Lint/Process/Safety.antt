-- ===== src/Lint/Process/Safety.antt =====
-- `ProcessFile` of tools/cpplint.py: no `assert` fails where every filter begins with a sign.
use optimer.Prelude.{
  Bool-cases, List, Option, Option-cases, [], inl, inr, none, refl, some, ℕ, ◌∙◌, ◌∷◌, ◌≡◌,
}
use optimer.Text.{Text}
use optimer.Lint.Event.{Event}
use optimer.Lint.State.{LintState, reset_nolint_suppressions, set_verbose_level}
use optimer.Lint.State.Filters.{AllSigned, handle_all-total}
use optimer.Lint.Process.{
  Environment, ExtraCheck, Run, assertion_error, check_text, endless, finished, has_return,
  is_checked, process_file, process_files, process_text, return_events, run_events, write, ◌>>=◌,
}

-- A run that fails no `assert`, and that leaves the filters as they are.
unfoldable pub Keeps : LintState → Run → Type 0
Keeps s endless = Unit
Keeps s assertion_error = ⊥
Keeps s (finished t) = t.filters ≡ s.filters

Keeps-chain :
    (s : LintState) (r : Run) (rest : LintState → Run)
    → Keeps s r
    → ((t : LintState) → t.filters ≡ s.filters → Keeps s (rest t))
    → Keeps s (r >>= rest)
unfolding Keeps
Keeps-chain s endless rest h k = tt
Keeps-chain s assertion_error rest h k = h
Keeps-chain s (finished t) rest h k = k t h

Keeps-same : (s t : LintState) (r : Run) → t.filters ≡ s.filters → Keeps t r → Keeps s r
unfolding Keeps
Keeps-same s t endless e h = tt
Keeps-same s t assertion_error e h = h
Keeps-same s t (finished u) e h = h ∙ e

Keeps-run_events :
    (es : Option (List Event)) (s : LintState) → AllSigned s.filters → Keeps s (run_events es s)
unfolding Keeps run_events
Keeps-run_events none s h = tt
Keeps-run_events (some es) s h = let (t, p, q) = handle_all-total es s h in rw p q

Keeps-write :
    (line : Text) (s t : LintState) → t.filters ≡ s.filters → Keeps s (finished (write line t))
unfolding Keeps
Keeps-write line s t e = e

Keeps-check_text :
    (env : Environment) (extra_checks : List ExtraCheck) (filename text : Text) (s : LintState)
    → AllSigned s.filters
    → Keeps s (check_text env extra_checks filename text s)
unfolding check_text
Keeps-check_text env extra_checks filename text s h =
    let s0 = reset_nolint_suppressions s in
    let same : s0.filters ≡ s.filters = unfold reset_nolint_suppressions in refl in
    let warning = some (return_events env.dos_lines filename (has_return text)) in
    Keeps-chain s _ (run_events warning)
      (Keeps-same s s0 _ same (Keeps-run_events _ s0 (rw same h)))
      λ t e. Keeps-same s t (run_events warning t) e (Keeps-run_events warning t (rw e h))

Keeps-process_text :
    (env : Environment) (extra_checks : List ExtraCheck) (filename text : Text) (s : LintState)
    → AllSigned s.filters
    → Keeps s (process_text env extra_checks filename text s)
unfolding process_text
Keeps-process_text env extra_checks filename text s h = elim (Bool-cases (is_checked filename)) [
  | inr ignored ↦ rw (process_text, ignored) (Keeps-write _ s s refl)
  | inl read ↦ rw (process_text, read) (Keeps-check_text env extra_checks filename text s h)
]

Keeps-process_file :
    (env : Environment) (extra_checks : List ExtraCheck) (filename : Text) (vlevel : ℕ)
    (s : LintState)
    → AllSigned s.filters
    → Keeps s (process_file env extra_checks filename vlevel s)
unfolding process_file
Keeps-process_file env extra_checks filename vlevel s h =
    let s1 = (set_verbose_level vlevel s).0 in
    let same : s1.filters ≡ s.filters = unfold set_verbose_level in refl in
    elim (Option-cases (env.read filename)) [
      | inr none_read ↦ rw (process_file, none_read) (Keeps-write _ s s1 same)
      | inl (text, e) ↦
          rw (process_file, e)
            (Keeps-same s s1 _ same (
              Keeps-chain s1 _ _ (Keeps-process_text env extra_checks filename text s1 (rw same h))
                λ t. Keeps-write _ s1 t))
    ]

pub Keeps-process_files :
    (env : Environment) (filenames : List Text) (s : LintState)
    → AllSigned s.filters
    → Keeps s (process_files env filenames s)
unfolding process_files
Keeps-process_files env [] s h = unfold Keeps in refl
Keeps-process_files env (filename ∷ filenames) s h =
    Keeps-chain s _ _ (Keeps-process_file env [] filename s.verbose_level s h)
      λ t e. Keeps-same s t _ e (Keeps-process_files env filenames t (rw e h))
