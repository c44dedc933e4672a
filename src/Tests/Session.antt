-- ===== src/Tests/Session.antt =====
-- A session of tools/pms.py on a small settings file, with a writer of logs in the place of YAML
-- that ends each text with a 0.
use optimer.Prelude.{
  List, Option, [], ap, arith, if◌then◌else◌, length, map, none, refl, some, suc, zero, ℕ, ◌++◌,
  ◌+◌, ◌∷◌, ◌≡◌,
}
use optimer.Text.{Text, codes, contains, decimal, split, text_eq}
use optimer.Text.Laws.{Without, split-append}
use optimer.Generator.{Child, Node, child, end, property, read_settings, section}
use optimer.Report.Html.{LogRow}
use optimer.Runner.{Machine, ReturnCode, RunLog, exited, killed}
use optimer.Runner.Session.{Outside, Params, Saved, Session, saved, session}
use optimer.Runner.Session.EndToEnd.{IsSaved, YamlReturns, row_of, session-IsSaved}
use optimer.Result.{ok}
use optimer.Generator.Settings.{document, read_settings-document}
use optimer.Report.Logs.{Numbers}
use optimer.Tests.Runner.{Files, machine}
use optimer.Report.TaskName.{lookup}

abbrev shift : Text → Text
shift = map suc

abbrev before : ℕ → ℕ
before zero = zero
before (suc n) = n

abbrev unshift : Text → Text
unshift = map before

abbrev write_logs : List (RunLog ℕ) → Text
write_logs [] = []
write_logs (log ∷ logs) = shift log.task_name ++ 0 ∷ (shift log.output ++ 0 ∷ write_logs logs)

abbrev rows_of : List Text → List LogRow
rows_of (name ∷ output ∷ rest) =
    record { task_name = unshift name; output = unshift output } ∷ rows_of rest
rows_of _ = []

abbrev read_logs : Text → List LogRow
unfolding split
read_logs text = rows_of (split 0 text)

shift-Without : (s : Text) → Without 0 (shift s)
shift-Without [] = refl
shift-Without (c ∷ s) = ground (arith, shift-Without s)

unshift-shift : (s : Text) → unshift (shift s) ≡ s
unshift-shift [] = refl
unshift-shift (c ∷ s) = ap (λ (t : Text). c ∷ t) (unshift-shift s)

read_logs-write_logs : (logs : List (RunLog ℕ)) → read_logs (write_logs logs) ≡ map row_of logs
unfolding read_logs row_of
read_logs-write_logs [] = unfold split in refl
read_logs-write_logs (log ∷ logs) =
    let after = shift log.output ++ 0 ∷ write_logs logs in
    rw
      (
        split-append 0 (shift log.task_name) after (shift-Without log.task_name),
        split-append 0 (shift log.output) (write_logs logs) (shift-Without log.output),
        unshift-shift log.task_name,
        unshift-shift log.output,
      )
      (ap (λ (rows : List LogRow). record { task_name = log.task_name; output = log.output } ∷ rows)
        (read_logs-write_logs logs))

abbrev tree : Node
tree =
    let valuation = property (codes "valuation_type") (codes "serial" ∷ []) end in
    let container = property (codes "container_type") (codes "lifo" ∷ []) (child valuation end) in
    let problem = property (codes "problem_path") (codes "a.atsp" ∷ codes "b.atsp" ∷ []) in
    section (codes "general") (child (problem (child container end)) end)

abbrev settings : Child
settings = document tree

abbrev params : Params
params = record { module_name = codes "atsp"; num_runs = 2; timeout = 60; settings = settings }

-- the second problem is given up
abbrev code_of_config : Option Text → ReturnCode
code_of_config none = killed 15
code_of_config (some t) = if contains t (codes "b.atsp") then killed 15 else exited 0

abbrev solver : Machine ℕ Files
solver = record machine {
  communicate = λ args bound files. (
    record {
      stdout = [];
      stderr = codes "log location: /tmp/log";
      return_code = code_of_config (lookup (codes "/tmp/config") files);
      start_time = 5;
      end_time = 7 + length files;
    },
    (codes "/tmp/log", decimal (length files)) ∷ files,
  );
}

-- numbers as the texts that they are read from
abbrev plain_numbers : Numbers
plain_numbers = record {
  Value = Text;
  int_of = λ t. t;
  float_of = λ t. t;
  str_of = λ v. v;
  fixed = λ n v. v;
  zero_value = [];
  missing = codes "none";
  add = λ a b. a ++ b;
  divide = λ v n. v;
}

abbrev outside : Outside ℕ Files
outside = record {
  machine = solver;
  now = codes "20140102-030405";
  dump = λ params logs. write_logs logs;
  load = read_logs;
  numbers = plain_numbers;
  dumps = λ outputs. [];
  js_function = [];
}

outside-YamlReturns : YamlReturns outside
unfolding YamlReturns
outside-YamlReturns _ logs = read_logs-write_logs logs

tree_read : read_settings params.settings ≡ ok tree
tree_read = read_settings-document tree

abbrev files_of : Session ℕ Files → Saved ℕ Files
files_of (saved files) = files
files_of _ = record {
  progress = record { logs = []; world = [] };
  result_filename = [];
  results = [];
  report_filename = [];
  report = [];
}

session_saves : session outside params [] ≡ saved (files_of (session outside params []))
unfolding session contains document lookup text_eq decimal
session_saves = refl

-- both runs of the first problem are kept
two_logs : length (files_of (session outside params [])).progress.logs ≡ 2
unfolding session contains document lookup text_eq decimal
two_logs = refl

report_name :
    (files_of (session outside params [])).report_filename ≡ codes "pms_result.20140102-030405.html"
unfolding session contains document lookup text_eq decimal
report_name = refl

session-IsSaved_example : IsSaved outside params tree [] (files_of (session outside params []))
session-IsSaved_example =
    session-IsSaved outside params tree [] (files_of (session outside params []))
      outside-YamlReturns tree_read session_saves
