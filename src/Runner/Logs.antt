-- ===== src/Runner/Logs.antt =====
-- What the runs of tools/pms.py leave in the logs, as a relation of the states of the outside.
use mathlib.Core.Option
use optimer.Prelude.{
  Bool-cases, List, Option, [], ap, append-nil, append_assoc, false, inl, inr, none, refl, some,
  some_injective, subst, suc, sym, true, zero, ℕ, ◌++◌, ◌∙◌, ◌∷◌, ◌≡◌,
}
use optimer.Text.{Text}
use optimer.Generator.{Config, config_name, config_str}
use optimer.Runner.{
  Machine, Progress, RunLog, RunningResult, get_log_filename, is_success, keep_log, log_of,
  run_configs, run_from, run_once, run_task, run_times,
}

bind-eq-some {ℓ κ} :
    {A : Type ℓ} {B : Type κ} (m : Option A) (f : A → Option B) {b : B}
    → Option.bind m f ≡ some b
    → (a : A) × (m ≡ some a) × (f a ≡ some b)
unfolding Option.bind
bind-eq-some none f h = cc
bind-eq-some (some a) f h = (a, refl, h)

map-eq-some {ℓ κ} :
    {A : Type ℓ} {B : Type κ} (f : A → B) (m : Option A) {b : B}
    → Option.map f m ≡ some b
    → (a : A) × (m ≡ some a) × (f a ≡ b)
map-eq-some f none h = cc
map-eq-some f (some a) h = (a, refl, some_injective h)

module _ {Time World : Type 0} (machine : Machine Time World) (module_name : Text)
    (num_runs timeout : ℕ) where
  open machine use {create, read_file, unlink}

  -- what a run on the file `name` returns, and the state that it leaves
  abbrev pub solver_run : Text → World → RunningResult Time × World
  solver_run name = run_task machine (module_name ∷ name ∷ []) timeout

  -- So many runs of a configuration that is in the file `name`, from a state to a state, and the
  -- logs that they leave: a run that has not returned 0 leaves none. One that has leaves what its
  -- log file holds right behind it, and the file is gone before the next run.
  pub data RunsOf (config : Config) (name : Text)
      : ℕ → World → List (RunLog Time) → World → Type 0 where
    done : {w : World} → RunsOf config name 0 w [] w
    fails :
        {left : ℕ} {w w' : World} {logs : List (RunLog Time)}
        → is_success (solver_run name w).0.return_code ≡ false
        → RunsOf config name left (solver_run name w).1 logs w'
        → RunsOf config name (suc left) w logs w'
    succeeds :
        {left : ℕ} {w w' u : World} {logs : List (RunLog Time)} {output : Text}
        → is_success (solver_run name w).0.return_code ≡ true
        → read_file (get_log_filename (solver_run name w).0).1 (solver_run name w).1 ≡ some output
        → unlink (get_log_filename (solver_run name w).0).1 (solver_run name w).1 ≡ some u
        → RunsOf config name left u logs w'
        → RunsOf config name
            (suc left)
            w
            (record {
              task_name = config_name config;
              running_time = (solver_run name w).0.running_time;
              output = output;
            }
              ∷ logs)
            w'

  -- The runs of all configurations in their order, each on a file that holds its text.
  pub data RunsOfAll : List Config → World → List (RunLog Time) → World → Type 0 where
    done : {w : World} → RunsOfAll [] w [] w
    next :
        {config : Config} {configs : List Config} {w u w' : World} {logs rest : List (RunLog Time)}
        → RunsOf config
            (create (config_str config) w).0
            num_runs
            (create (config_str config) w).1
            logs
            u
        → RunsOfAll configs u rest w'
        → RunsOfAll (config ∷ configs) w (logs ++ rest) w'

  -- What remains to be shown of a run that has led to `q`, with `left` runs behind it.
  Extends : Config → Text → ℕ → Progress Time World → Progress Time World → Type 0
  Extends config name left p q =
      (logs : List (RunLog Time)) (w' : World)
      → RunsOf config name left q.world logs w'
      → (more : List (RunLog Time)) × (p.logs ++ more ≡ q.logs ++ logs)
        × RunsOf config name (suc left) p.world more w'

  keep_log-Extends :
      (config : Config) (name : Text) (left : ℕ) (p q : Progress Time World)
      → is_success (solver_run name p.world).0.return_code ≡ true
      → keep_log machine module_name num_runs timeout config
          (solver_run name p.world).0
          (record p { world = (solver_run name p.world).1 })
        ≡ some q
      → Extends config name left p q
  unfolding keep_log Extends
  keep_log-Extends config name left p q good h =
      let (output, content, h') = bind-eq-some _ _ h in
      let (u, gone, e) = map-eq-some _ _ h' in
      subst (Extends config name left p) e λ logs w' r. (
        _,
        sym (
            append_assoc p.logs
              (log_of machine module_name num_runs timeout config (solver_run name p.world).0 output
                ∷ [])
              logs),
        succeeds good content gone r,
      )

  run_once-Extends :
      (config : Config) (name : Text) (left : ℕ) (p q : Progress Time World)
      → run_once machine module_name num_runs timeout config name p ≡ some q
      → Extends config name left p q
  unfolding run_once Extends
  run_once-Extends config name left p q h =
      elim (Bool-cases (is_success (solver_run name p.world).0.return_code)) [
        | inl good ↦ keep_log-Extends config name left p q good (rw (run_once, good) at h)
        | inr bad ↦
            subst (Extends config name left p) (some_injective (rw (run_once, bad) at h))
              λ logs w' r. (logs, refl, fails bad r)
      ]

  run_times-RunsOf :
      (config : Config) (name : Text) (left : ℕ) (p q : Progress Time World)
      → run_times machine module_name num_runs timeout config name left p ≡ some q
      → (logs : List (RunLog Time)) × (q.logs ≡ p.logs ++ logs)
        × RunsOf config name left p.world logs q.world
  unfolding run_times Extends
  run_times-RunsOf config name zero p q h =
      let e = some_injective h in
      (
        [],
        ap (λ (u : Progress Time World). u.logs) (sym e) ∙ sym (append-nil p.logs),
        subst (λ (u : Progress Time World). RunsOf config name 0 p.world [] u.world) e done,
      )
  run_times-RunsOf config name (suc left) p q h =
      let (r, first, rest) = bind-eq-some _ _ h in
      let (logs, at, runs) = run_times-RunsOf config name left r q rest in
      let (more, joined, all_runs) =
        run_once-Extends config name left p r first logs q.world runs in
      (more, at ∙ sym joined, all_runs)

  run_from-RunsOfAll :
      (configs : List Config) (p q : Progress Time World)
      → run_from machine module_name num_runs timeout configs p ≡ some q
      → (logs : List (RunLog Time)) × (q.logs ≡ p.logs ++ logs)
        × RunsOfAll configs p.world logs q.world
  unfolding run_from
  run_from-RunsOfAll [] p q h =
      let e = some_injective h in
      (
        [],
        ap (λ (u : Progress Time World). u.logs) (sym e) ∙ sym (append-nil p.logs),
        subst (λ (u : Progress Time World). RunsOfAll [] p.world [] u.world) e done,
      )
  run_from-RunsOfAll (config ∷ configs) p q h =
      let (r, first, others) = bind-eq-some _ _ h in
      let (logs, at, runs) = run_times-RunsOf config _ num_runs _ r first in
      let (rest, at', all_runs) = run_from-RunsOfAll configs r q others in
      (
        logs ++ rest,
        at' ∙ ap (λ (l : List (RunLog Time)). l ++ rest) at ∙ append_assoc p.logs logs rest,
        next runs all_runs,
      )

  -- If no file is missing, the logs are those that the runs of the configurations leave, each in
  -- its order and as often as it is asked for, with the state of the outside passed on from one to
  -- the next: for each run that returns 0 the name of the configuration, the time, and what the log
  -- file that the run has named holds right behind the run, before it is unlinked.
  pub logs-run_configs :
      (configs : List Config) (world : World) (q : Progress Time World)
      → run_configs machine module_name num_runs timeout configs world ≡ some q
      → RunsOfAll configs world q.logs q.world
  unfolding run_configs
  logs-run_configs configs world q h =
      let (logs, at, runs) = run_from-RunsOfAll configs _ q h in rw at runs
