-- ===== src/Report/Html.antt =====
-- `HtmlWriter` and `main` of tools/pms_report.py. The text of the script, `json.dumps` and the
-- numbers are parameters.
pub mod Grouping
use optimer.Prelude.{List, Option, [], if◌then◌else◌, none, some, ◌++◌, ◌∷◌}
use optimer.Text.{Text, codes, text_eq}
use optimer.Result.{Result, ok, ◌>>=◌}
use optimer.Report.TaskName.{Dict, insert, lookup, parse_task_name}
use optimer.Report.Logs.{LineParser, Numbers, log_result, parsers}
use optimer.Report.Tables.{TableData, build_table_data, create_csv_table, create_html_table}

-- `contents`
pub record HtmlWriter : Type 0 where
  pub head : Text
  pub script : Text
  pub body : Text

abbrev pub empty_writer : HtmlWriter
empty_writer = record { head = []; script = []; body = [] }

abbrev newline : Text
newline = codes "\n"

unfoldable pub append_to_head : Text → HtmlWriter → HtmlWriter
append_to_head value w = record w { head = w.head ++ value ++ newline }

unfoldable pub append_to_script : Text → HtmlWriter → HtmlWriter
append_to_script value w = record w { script = w.script ++ value ++ newline }

unfoldable pub append_to_body : Text → HtmlWriter → HtmlWriter
append_to_body value w = record w { body = w.body ++ value ++ newline }

unfoldable pub write_js_variable : Text → Text → HtmlWriter → HtmlWriter
unfolding append_to_script
write_js_variable name value =
    append_to_script (codes "var " ++ name ++ codes " = " ++ value ++ codes ";")

unfoldable pub write_text : Text → HtmlWriter → HtmlWriter
unfolding append_to_body
write_text text = append_to_body (codes "<pre>" ++ text ++ codes "</pre>")

unfoldable pub write_line : HtmlWriter → HtmlWriter
unfolding append_to_body
write_line = append_to_body (codes "<hr />")

unfoldable pub write_caption : Text → HtmlWriter → HtmlWriter
unfolding append_to_body
write_caption caption = append_to_body (codes "<h2> " ++ caption ++ codes " </h2>")

-- MainHtml % contents
unfoldable pub html_str : HtmlWriter → Text
html_str w =
    codes "<html>\n    <head>\n        "
    ++ w.head
    ++ codes "\n        <script language=\"javascript\"> "
    ++ w.script
    ++ codes " </script>\n    </head>\n    <body>\n        "
    ++ w.body
    ++ codes "\n    </body>\n</html>\n"

-- a row of 'logs' in the results file
pub record LogRow : Type 0 where
  pub task_name : Text
  pub output : Text

-- d.setdefault(key, []).append(value), as the two `if`s write it
unfoldable pub append_at {ℓ} : {V : Type ℓ} → Text → V → Dict (List V) → Dict (List V)
unfolding text_eq
append_at key value [] = (key, value ∷ []) ∷ []
append_at key value ((k, vs) ∷ d) =
    if text_eq k key then (k, vs ++ value ∷ []) ∷ d else (k, vs) ∷ append_at key value d

abbrev or_empty {ℓ} : {V : Type ℓ} → Option (Dict V) → Dict V
or_empty none = []
or_empty (some d) = d

-- log_outputs[problem_name][solver_settings].append(output)
unfoldable pub append_output :
    Text → Text → Text → Dict (Dict (List Text)) → Dict (Dict (List Text))
unfolding append_at insert lookup
append_output problem_name solver output outputs =
    insert problem_name (append_at solver output (or_empty (lookup problem_name outputs))) outputs

pub record Collected (V : Type 0) : Type 0 where
  pub entries : Dict (List (Dict V))
  pub log_outputs : Dict (Dict (List Text))

abbrev nothing : {V : Type 0} → Collected V
nothing = record { entries = []; log_outputs = [] }

-- the loop over the rows
unfoldable pub collect :
    {V : Type 0} → Dict (LineParser V) → List LogRow → Collected V → Result (Collected V)
unfolding append_output append_at log_result parse_task_name
collect ps [] c = ok c
collect ps (row ∷ rows) c = do
  let entries = append_at row.task_name (log_result ps row.output) c.entries
  (problem_name, solver) ← parse_task_name row.task_name
  collect ps rows (record {
    entries = entries;
    log_outputs = append_output problem_name solver row.output c.log_outputs;
  })

module _ (numbers : Numbers) (dumps : Dict (Dict (List Text)) → Text) (js_function : Text) where
  report_of : Dict (Dict (List Text)) → TableData → Text
  unfolding write_js_variable append_to_script append_to_body create_html_table create_csv_table
      html_str
  report_of log_outputs table_data =
      let w1 = write_js_variable (codes "logs") (dumps log_outputs) empty_writer in
      let w2 = append_to_script js_function w1 in
      let w3 = append_to_body (create_html_table table_data) w2 in
      let w4 = append_to_body (codes "<br /><div id=\"logrefs\"></div> <br />") w3 in
      let w5 =
        append_to_body
          (codes
            "<textarea id=\"logdata\" cols=\"120\" rows=\"20\" readonly hidden> </textarea> <br />")
          w4 in
      html_str (
        append_to_body
          (codes "<textarea id=\"csvtable\" cols=\"120\" rows=\"5\" readonly>"
            ++ create_csv_table table_data
            ++ codes " </textarea> <br />")
          w5)

  -- The text that `main` writes to the report file.
  unfoldable pub report_main : List LogRow → Result Text
  unfolding report_of collect build_table_data parsers
  report_main rows = do
    c ← collect (parsers numbers) rows nothing
    table_data ← build_table_data numbers (parsers numbers) c.entries
    ok (report_of c.log_outputs table_data)
