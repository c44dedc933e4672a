-- ===== src/Tests/Report.antt =====
-- A task name, a log and a small table of tools/pms_report.py.
use optimer.Prelude.{List, [], map, refl, some, ◌++◌, ◌∷◌, ◌≡◌}
use optimer.Text.{Text, codes, join, split, strip, text_eq}
use optimer.Result.{Result, ok, raised}
use optimer.Generator.{config_name}
use optimer.Report.TaskName.{Dict, entries_of, lookup, parse_task_name}
use optimer.Report.TaskName.Entries.{lookup-config_name, property_line}
use optimer.Report.Logs.{Numbers, log_result, parsers}
use mathlib.Core.List.{Perm}
use optimer.Report.Tables.{TableData, build_rows, build_table_data, create_csv_table}
use optimer.Report.Tables.Order.{IsOrdered, build_table_data-IsOrdered}
use optimer.Report.Tables.Csv.{split-create_csv_table}
use optimer.Report.Html.{Collected, LogRow, collect}
use optimer.Report.Html.Grouping.{collect-runs_at, outputs_of, runs_at}

abbrev head_lines : List Text
head_lines = codes "[general]" ∷ []

abbrev tail_lines : List Text
tail_lines = codes "container_type=lifo" ∷ codes "valuation_type=serial" ∷ []

abbrev path_key : Text
path_key = codes "problem_path "

abbrev path_value : Text
path_value = codes " data/br17.atsp"

lookup-config_name_example :
    lookup (strip path_key) (
      entries_of (
        config_name
          (record { lines = head_lines ++ property_line path_key path_value ∷ tail_lines })))
    ≡ some (strip path_value)
unfolding split strip text_eq
lookup-config_name_example =
    lookup-config_name head_lines tail_lines path_key path_value (refl, (refl, (refl, (refl, tt))))
      refl refl refl

abbrev name : Text
name = codes "[general]:problem_path=data/br17.atsp:container_type=lifo:valuation_type=serial"

name_parsed : parse_task_name name ≡ ok (codes "br17.atsp", codes "lifo, serial, 1, none")
unfolding parse_task_name
name_parsed = refl

-- Numbers as the texts that they are read from.
abbrev texts : Numbers
texts = record {
  Value = Text;
  int_of = λ t. t;
  float_of = λ t. t;
  str_of = λ v. v;
  fixed = λ n v. v;
  zero_value = [];
  missing = codes "none";
  add = λ a b. a ++ b;
  divide = λ v n. v;
}

abbrev log : Text
log = codes "start\n  Generated sets:  57\nValuation Time: 0.25 s\n"

log_read :
    log_result (parsers texts) log
    ≡ (codes "generated sets", codes "57") ∷ (codes "valuation time", codes "0.25") ∷ []
unfolding log_result parsers
log_read = refl

abbrev rows : List LogRow
rows =
    record { task_name = name; output = log }
    ∷ record { task_name = name; output = codes "Generated sets: 1" }
    ∷ []

abbrev collected : Collected Text
collected = record {
  entries =
      (
        name,
        log_result (parsers texts) log
            ∷ log_result (parsers texts) (codes "Generated sets: 1")
            ∷ [],
      )
      ∷ [];
  log_outputs =
      (
        codes "br17.atsp",
        (codes "lifo, serial, 1, none", log ∷ codes "Generated sets: 1" ∷ []) ∷ [],
      )
      ∷ [];
}

rows_collected :
    collect (parsers texts) rows (record { entries = []; log_outputs = [] }) ≡ ok collected
unfolding collect log_result parsers
rows_collected = refl

collect-runs_at_example :
    runs_at name collected.entries ≡ runs_at name [] ++ outputs_of (parsers texts) name rows
collect-runs_at_example =
    collect-runs_at (parsers texts) name rows (record { entries = []; log_outputs = [] }) collected
      rows_collected

abbrev table_rows : List (List Text)
table_rows =
    (codes "ft53" ∷ codes "lifo" ∷ codes "3" ∷ [])
    ∷ (codes "br17" ∷ codes "lifo" ∷ codes "5" ∷ [])
    ∷ []

abbrev two_tasks : Dict (List (Dict Text))
two_tasks =
    (codes "problem_path=ft53:container_type=lifo:valuation_type=serial", [] ∷ [])
    ∷ (codes "problem_path=br17:container_type=lifo:valuation_type=serial", [] ∷ [])
    ∷ []

abbrev table_of : Result TableData → TableData
table_of (raised e) = record { header = []; rows = [] }
table_of (ok t) = t

two_rows :
    build_table_data texts (parsers texts) two_tasks
    ≡ ok (table_of (build_table_data texts (parsers texts) two_tasks))
unfolding build_table_data parsers
two_rows = refl

build_table_data-IsOrdered_example :
    (rows : List (List Text)) × (build_rows texts (parsers texts) two_tasks ≡ ok rows)
    × Perm (table_of (build_table_data texts (parsers texts) two_tasks)).rows rows
    × IsOrdered (table_of (build_table_data texts (parsers texts) two_tasks)).rows
build_table_data-IsOrdered_example =
    build_table_data-IsOrdered texts (parsers texts) two_tasks
      (table_of (build_table_data texts (parsers texts) two_tasks)) two_rows

abbrev table : TableData
table = record { header = codes "problem" ∷ codes "solver" ∷ codes "sets" ∷ []; rows = table_rows }

split-create_csv_table_example :
    split b'\n' (create_csv_table table)
    ≡ join (codes ", ") table.header ∷ map (join (codes ", ")) table.rows
split-create_csv_table_example =
    split-create_csv_table table (refl, (refl, (refl, tt)))
      ((refl, (refl, (refl, tt))), ((refl, (refl, (refl, tt))), tt))
