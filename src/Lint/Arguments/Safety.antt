-- ===== src/Lint/Arguments/Safety.antt =====
-- `main` of tools/cpplint.py: no `assert` of the error handler fails.
use optimer.Prelude.{List, Option, Option-cases, [], inl, inr, none, refl, some, ◌∷◌, ◌≡◌, ◌≢◌}
use optimer.Text.{Text}
use optimer.Lint.State.{
  LintState, reset_error_counts, set_counting_style, set_filters, set_output_format,
  set_verbose_level,
}
use optimer.Lint.State.Filters.{AllSigned, set_filters_iff}
use optimer.Lint.Arguments.{
  Command, Options, Parsed, Shell, after_parsing, apply_options, categories, default_options,
  exit_run, fails, finish_parsing, main, parse_arguments, parsed, print_categories, print_usage,
  run_command, store_options, stored, usage, value_error, ◌>>=◌,
}
use optimer.Lint.Process.{Environment, Run, assertion_error, endless, finished}
use optimer.Lint.Process.Safety.{Keeps, Keeps-process_files}

-- what holds of the value of a parse
unfoldable pub Gives {ℓ} : {A : Type ℓ} → (A → Type 0) → Parsed A → Type 0
Gives P (usage message) = Unit
Gives P categories = Unit
Gives P (value_error message) = Unit
Gives P (parsed a) = P a

stored-AllSigned :
    (o : Options) (p : LintState × Option Text)
    → (p.1 ≡ none → AllSigned p.0.filters)
    → Gives (λ (t : LintState). AllSigned t.filters) (stored o p)
unfolding Gives stored set_counting_style
stored-AllSigned o (s, none) h = h refl
stored-AllSigned o (s, some message) h = tt

-- Options that are stored leave filters that all begin with a sign.
store_options-AllSigned :
    (o : Options) (s : LintState)
    → Gives (λ (t : LintState). AllSigned t.filters) (store_options o s)
unfolding store_options
store_options-AllSigned o s =
    let t = (set_verbose_level o.verbosity (set_output_format o.output_format s)).0 in
    stored-AllSigned o (set_filters o.filters t) (set_filters_iff o.filters t).0

Gives-chain {ℓ κ} :
    {A : Type ℓ} {B : Type κ} (P : A → Type 0) (Q : B → Type 0) (p : Parsed A) (rest : A → Parsed B)
    → Gives P p
    → ((a : A) → P a → Gives Q (rest a))
    → Gives Q (p >>= rest)
unfolding Gives
Gives-chain P Q (usage message) rest h k = tt
Gives-chain P Q categories rest h k = tt
Gives-chain P Q (value_error message) rest h k = tt
Gives-chain P Q (parsed a) rest h k = k a h

Gives-always {ℓ} : {A : Type ℓ} (p : Parsed A) → Gives (λ (a : A). Unit) p
unfolding Gives
Gives-always (usage message) = tt
Gives-always categories = tt
Gives-always (value_error message) = tt
Gives-always (parsed a) = tt

-- what `main` needs of the command that the arguments are parsed into
IsSigned : Command → Type 0
IsSigned c = AllSigned c.state.filters

finish_parsing-IsSigned :
    (s : LintState) (filenames : List Text) (o : Options)
    → Gives IsSigned (finish_parsing s filenames o)
unfolding finish_parsing IsSigned
finish_parsing-IsSigned s [] o = unfold Gives in tt
finish_parsing-IsSigned s (f ∷ fs) o =
    Gives-chain _ _ (store_options o s) _ (store_options-AllSigned o s) λ t h. unfold Gives in h

parse_arguments-IsSigned :
    (shell : Shell) (args : List Text) (s : LintState)
    → Gives IsSigned (parse_arguments shell args s)
unfolding parse_arguments
parse_arguments-IsSigned shell args s = elim (Option-cases (shell.getopt args)) [
  | inr e ↦ rw (parse_arguments, e) (unfold Gives in tt)
  | inl ((opts, filenames), e) ↦
      rw (parse_arguments, e)
        (Gives-chain _ _ (apply_options shell opts (default_options s)) _ (Gives-always _)
          λ o h. finish_parsing-IsSigned s filenames o)
]

exit_run-fails : (s : LintState) (r : Run) → Keeps s r → exit_run r ≢ fails
unfolding Keeps exit_run
exit_run-fails s endless h e = cc
exit_run-fails s assertion_error h e = h
exit_run-fails s (finished t) h e = cc

run_command-fails :
    (shell : Shell) (env : Environment) (c : Command)
    → AllSigned c.state.filters
    → run_command shell env c ≢ fails
unfolding run_command
run_command-fails shell env c h =
    let t = reset_error_counts c.state in
    let same : t.filters ≡ c.state.filters = unfold reset_error_counts in refl in
    exit_run-fails t _ (Keeps-process_files _ c.filenames t (rw same h))

main-after :
    (shell : Shell) (env : Environment) (usage_text : Text) (s : LintState) (p : Parsed Command)
    → Gives IsSigned p
    → after_parsing shell env usage_text s p ≢ fails
unfolding Gives IsSigned after_parsing print_usage print_categories
main-after shell env usage_text s (usage message) h e = cc
main-after shell env usage_text s categories h e = cc
main-after shell env usage_text s (value_error message) h e = cc
main-after shell env usage_text s (parsed c) h e = run_command-fails shell env c h e

-- The program never ends by a failed `assert`: the filters that `ParseArguments` stores all begin
-- with a sign.
pub main-fails :
    (shell : Shell) (env : Environment) (usage_text : Text) (args : List Text) (s : LintState)
    → main shell env usage_text args s ≢ fails
unfolding main
main-fails shell env usage_text args s =
    main-after shell env usage_text s _ (parse_arguments-IsSigned shell args s)
