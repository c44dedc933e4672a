-- ===== src/Lint/Arguments/Counts.antt =====
-- `main` of tools/cpplint.py: what its exit status and its counts are.
use optimer.Prelude.{
  List, [], arith, length, length-append, refl, subst, ℕ, ◌++◌, ◌+◌, ◌<◌, ◌↔◌, ◌∷◌, ◌≡◌, ◌≢◌, ◌≤◌,
}
use optimer.Text.{Text, codes, decimal}
use optimer.Lint.State.{LintState, count_lines, print_error_counts, reset_error_counts, total}
use optimer.Lint.State.Counts.{sum_counts}
use optimer.Lint.Process.{Environment, Run, assertion_error, endless, finished}
use optimer.Lint.Process.Counts.{Counts, Counts-process_files, all_notices}
use optimer.Lint.Arguments.{
  Command, Exit, Shell, after_parsing, exit_run, exit_status, exits, fails, hangs, main,
  parse_arguments, parsed, raises, root_pattern, run_command,
}

length-count_lines : (counts : List (Text × ℕ)) → length (count_lines counts) ≡ length counts
unfolding count_lines
length-count_lines [] = refl
length-count_lines ((category, n) ∷ rest) = omega (arith, length-count_lines rest)

-- how the program is left behind the files
pub record Summed (env : Environment) (c : Command) (status : ℕ) (t : LintState) : Type 0 where
  pub status_one : (status ≡ 1) ↔ (0 < t.error_count)
  pub status_bound : status ≤ 1
  pub sums : c.state.counting ≢ total → sum_counts t.errors_by_category ≡ t.error_count
  pub lines :
      length t.stderr
      ≡ length c.state.stderr
        + t.error_count
        + all_notices env.read c.filenames
        + length t.errors_by_category
        + 1

exit_status_iff : (n : ℕ) → (exit_status n ≡ 1) ↔ (0 < n)
unfolding exit_status
exit_status_iff n = grind arith

exit_status_bound : (n : ℕ) → exit_status n ≤ 1
unfolding exit_status
exit_status_bound n = ground arith

-- Every status and state with which the program may end is counted.
Ends : Environment → Command → Exit → Type 0
Ends env c hangs = Unit
Ends env c fails = Unit
Ends env c (raises message) = Unit
Ends env c (exits status t) = Summed env c status t

exit_run-Ends :
    (env : Environment) (c : Command) (r : Run)
    → Counts (all_notices env.read c.filenames) (reset_error_counts c.state) r
    → Ends env c (exit_run r)
unfolding Counts Ends exit_run reset_error_counts print_error_counts sum_counts
exit_run-Ends env c endless h = tt
exit_run-Ends env c assertion_error h = tt
exit_run-Ends env c (finished u) h = record {
  status_one = exit_status_iff u.error_count;
  status_bound = exit_status_bound u.error_count;
  sums = λ n. omega (arith, h.sums n);
  lines = omega (
    arith,
    h.lines,
    length-append u.stderr (count_lines u.errors_by_category),
    length-append (u.stderr ++ count_lines u.errors_by_category)
        ((codes "Total errors found: " ++ decimal u.error_count ++ codes "\n") ∷ []),
    length-count_lines u.errors_by_category,
  );
}

-- Where the arguments are parsed and the program ends with a status, the status is 1 if an error
-- was counted and 0 otherwise. If the counting style is not `total`, the counts by category sum to
-- the count of errors. To stderr it has written a line for each error counted, the notices of the
-- files, a line for each category counted and the total.
pub main-Summed :
    (shell : Shell) (env : Environment) (usage_text : Text) (args : List Text) (s : LintState)
    {c : Command} {status : ℕ} {t : LintState}
    → parse_arguments shell args s ≡ parsed c
    → main shell env usage_text args s ≡ exits status t
    → Summed env c status t
unfolding main after_parsing run_command Ends
main-Summed shell env usage_text args s {c} {status} {t} p e =
    let files = record env { root = root_pattern shell c.root } in
    let counts = Counts-process_files files c.filenames (reset_error_counts c.state) in
    subst (Ends env c) (rw (main, p) at e) (exit_run-Ends env c _ counts)
