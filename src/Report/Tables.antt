-- ===== src/Report/Tables.antt =====
-- `build_table_data` and the tables of tools/pms_report.py.
pub mod Order
pub mod Csv
use optimer.Prelude.{
  Bool, List, Option, [], false, if◌then◌else◌, length, map, none, some, true, ◌++◌, ◌∷◌,
}
use optimer.Text.{Text, codes, join, text_lt}
use optimer.Result.{Result, ok, raised, zero_division_error, ◌>>=◌}
use optimer.Report.TaskName.{Dict, lookup, parse_task_name}
use optimer.Report.Logs.{LineParser, Numbers}

pub record TableData : Type 0 where
  pub header : List Text
  pub rows : List (List Text)

abbrev pub keys {ℓ} : {V : Type ℓ} → Dict V → List Text
keys = map λ e. e.0

-- row[0] + row[1], for the rows of the table
abbrev pub row_key : List Text → Text
row_key (a ∷ b ∷ r) = a ++ b
row_key _ = []

-- `sorted`: the sort is stable
insert_row : List Text → List (List Text) → List (List Text)
insert_row row [] = row ∷ []
insert_row row (r ∷ rs) =
    if text_lt (row_key r) (row_key row) then r ∷ insert_row row rs else row ∷ r ∷ rs

unfoldable pub sort_rows : List (List Text) → List (List Text)
unfolding insert_row text_lt
sort_rows [] = []
sort_rows (row ∷ rows) = insert_row row (sort_rows rows)

module _ (numbers : Numbers) where
  open numbers use {Value, zero_value, missing, add, divide}

  abbrev or_missing : Option Value → Value
  or_missing none = missing
  or_missing (some v) = v

  -- the sum of one column over the runs
  sum_column : Text → Value → List (Dict Value) → Value
  unfolding lookup
  sum_column title total [] = total
  sum_column title total (run ∷ runs) =
      sum_column title (add total (or_missing (lookup title run))) runs

  -- the cells of a row, for at least one run
  cells : Dict (LineParser Value) → List (Dict Value) → List Text
  unfolding sum_column
  cells [] runs = []
  cells ((title, p) ∷ ps) runs =
      p.format_function (divide (sum_column title zero_value runs) (length runs)) ∷ cells ps runs

  abbrev has_columns : Dict (LineParser Value) → List (Dict Value) → Bool
  has_columns [] runs = false
  has_columns (p ∷ ps) [] = true
  has_columns (p ∷ ps) (run ∷ runs) = false

  unfoldable pub build_rows :
      Dict (LineParser Value) → Dict (List (Dict Value)) → Result (List (List Text))
  unfolding cells parse_task_name
  build_rows ps [] = ok []
  build_rows ps ((task_name, runs) ∷ rest) =
      if has_columns ps runs then raised zero_division_error else do
        (problem_name, solver) ← parse_task_name task_name
        rows ← build_rows ps rest
        ok ((problem_name ∷ solver ∷ cells ps runs) ∷ rows)

  unfoldable pub build_table_data :
      Dict (LineParser Value) → Dict (List (Dict Value)) → Result TableData
  unfolding build_rows sort_rows
  build_table_data ps all_runs = do
    rows ← build_rows ps all_runs
    ok (record {
      header =
          codes "problem_name"
          ∷ codes "container, branching_rule, type, num threads, scheduler"
          ∷ keys ps;
      rows = sort_rows rows;
    })

-- '<td> %s </td>' % item
cell : Text → Text
cell item = codes "<td> " ++ item ++ codes " </td>"

html_row : Text → Text
html_row cells = codes "<tr> " ++ cells ++ codes " </tr>"

concat_cells : List Text → Text
unfolding cell
concat_cells [] = []
concat_cells (item ∷ items) = cell item ++ concat_cells items

-- func % (r[0], r[1], item)
link : Text → Text → Text → Text
link problem solver item =
    codes "<a href=\"#\" onclick='show_log(\""
    ++ problem
    ++ codes "\", \""
    ++ solver
    ++ codes "\", 0);return false;'>"
    ++ item
    ++ codes "</a>"

data_row : List Text → Text
unfolding html_row concat_cells link
data_row (problem ∷ solver ∷ r) =
    html_row (concat_cells (map (link problem solver) (problem ∷ solver ∷ r)))
data_row r = html_row []

unfoldable pub create_html_table : TableData → Text
unfolding data_row join
create_html_table table_data =
    codes "<table id=\"tabledata\" border=\"1\" cellspacing=\"0\" cellpadding=\"2\"> "
    ++ join (codes "\n") (html_row (concat_cells table_data.header) ∷ map data_row table_data.rows)
    ++ codes " </table>"

unfoldable pub create_csv_table : TableData → Text
unfolding join
create_csv_table table_data =
    join (codes "\n")
      (join (codes ", ") table_data.header ∷ map (join (codes ", ")) table_data.rows)
