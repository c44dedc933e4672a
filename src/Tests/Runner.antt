-- ===== src/Tests/Runner.antt =====
-- Two configurations, of which the second one's solver fails.
use optimer.Prelude.{
  List, Option, [], if◌then◌else◌, length, map, none, refl, some, ℕ, ◌-◌, ◌∷◌, ◌≡◌,
}
use optimer.Text.{Text, codes, decimal, text_eq}
use optimer.Generator.{Config}
use mathlib.Core.Option
use optimer.Report.TaskName.{lookup}
use optimer.Runner.{Machine, Progress, ReturnCode, exited, killed, run_configs}
use optimer.Runner.Logs.{RunsOfAll, logs-run_configs}

abbrev good : Config
good = record { lines = codes "[a]" ∷ [] }

abbrev bad : Config
bad = record { lines = [] }

-- the files, the newest first
abbrev pub Files : Type 0
Files = List (Text × Text)

abbrev pub without : Text → Files → Files
unfolding text_eq
without name [] = []
without name ((n, t) ∷ files) = if text_eq n name then files else (n, t) ∷ without name files

abbrev pub code_of : Option Text → ReturnCode
code_of none = killed 15
code_of (some []) = killed 15
code_of (some (c ∷ t)) = exited 0

-- A solver of which each run writes the log of the same name, with the number of files in it. It is
-- killed where the file of the configuration is empty.
abbrev pub machine : Machine ℕ Files
machine = record {
  communicate = λ args bound files. (
    record {
      stdout = [];
      stderr = codes "x\nlog location: /tmp/log";
      return_code = code_of (lookup (codes "/tmp/config") files);
      start_time = 5;
      end_time = 7;
    },
    (codes "/tmp/log", decimal (length files)) ∷ files,
  );
  minus = λ a b. a - b;
  create = λ t files. (codes "/tmp/config", (codes "/tmp/config", t) ∷ files);
  read_file = λ name files. lookup name files;
  unlink = λ name files. Option.map (λ t. without name files) (lookup name files);
}

abbrev progress_of : Option (Progress ℕ Files) → Progress ℕ Files
progress_of none = record { logs = []; world = [] }
progress_of (some p) = p

abbrev result : Option (Progress ℕ Files)
result =
    run_configs machine (codes "atsp") 2 60 (good ∷ good ∷ bad ∷ []) ((codes "a", codes "b") ∷ [])

both_run : result ≡ some (progress_of result)
unfolding run_configs lookup text_eq decimal
both_run = refl

-- the logs of one name differ from run to run
outputs :
    map (λ log. log.output) (progress_of result).logs
    ≡ codes "2" ∷ codes "2" ∷ codes "3" ∷ codes "3" ∷ []
unfolding run_configs lookup text_eq decimal
outputs = refl

logs-run_configs_example :
    RunsOfAll machine
      (codes "atsp")
      2
      60
      (good ∷ good ∷ bad ∷ [])
      ((codes "a", codes "b") ∷ [])
      (progress_of result).logs
      (progress_of result).world
logs-run_configs_example =
    logs-run_configs machine (codes "atsp") 2 60 (good ∷ good ∷ bad ∷ [])
      ((codes "a", codes "b") ∷ []) (progress_of result) both_run
