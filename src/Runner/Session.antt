-- ===== src/Runner/Session.antt =====
-- `main` of tools/pms.py: from a settings file to the report. `yaml`, the clock and what the report
-- takes as parameters are parameters here too.
pub mod EndToEnd
use optimer.Prelude.{List, Option, [], none, some, ℕ, ◌++◌}
use optimer.Text.{Text, codes, replace}
use optimer.Result.{PyError, Result, ok, raised}
use optimer.Generator.{Child, Node, empty_config, process, read_settings}
use optimer.Report.TaskName.{Dict}
use optimer.Report.Logs.{Numbers}
use optimer.Report.Html.{LogRow, report_main}
use optimer.Runner.{Machine, Progress, RunLog, run_configs}

-- the keys of the settings file that are asked for; `settings` is the dict as `read_settings` reads it
pub record Params : Type 0 where
  pub module_name : Text
  pub num_runs : ℕ
  pub timeout : ℕ
  pub settings : Child

-- `now` is the date and the time as strftime('%Y%m%d-%H%M%S') writes them. `dump` writes the settings
-- with the logs, and `load` gives the rows of 'logs' of what was written.
pub record Outside (Time World : Type 0) : Type 1 where
  pub machine : Machine Time World
  pub now : Text
  pub dump : Params → List (RunLog Time) → Text
  pub load : Text → List LogRow
  pub numbers : Numbers
  pub dumps : Dict (Dict (List Text)) → Text
  pub js_function : Text

-- the files of a session: the results, and the report that is made of them
pub record Saved (Time World : Type 0) : Type 0 where
  pub progress : Progress Time World
  pub result_filename : Text
  pub results : Text
  pub report_filename : Text
  pub report : Text

-- How a session ends: with an exception of the tools, with a file that cannot be opened or unlinked, with an
-- exception of the report, behind the results, or with both files.
pub data Session (Time World : Type 0) : Type 0 where
  stopped : PyError → Session Time World
  file_missing : Session Time World
  report_failed : Text → PyError → Session Time World
  saved : Saved Time World → Session Time World

unfoldable pub result_filename : Text → Text
result_filename now = codes "pms_result." ++ now ++ codes ".yaml"

-- filename.replace('.yaml', '.html')
unfoldable pub report_filename : Text → Text
unfolding replace
report_filename filename = replace filename (codes ".yaml") (codes ".html")

module _ {Time World : Type 0} (outside : Outside Time World) where
  open outside use {machine, now, dump, load, numbers, dumps, js_function}

  -- pms_report.main(result_filename), which reads the results right behind their writing
  report_of_results : Progress Time World → Text → Result Text → Session Time World
  unfolding result_filename report_filename
  report_of_results progress results (raised e) = report_failed results e
  report_of_results progress results (ok report) = saved (record {
    progress = progress;
    result_filename = result_filename now;
    results = results;
    report_filename = report_filename (result_filename now);
    report = report;
  })

  unfoldable pub save_logs : Params → Option (Progress Time World) → Session Time World
  unfolding report_of_results report_main
  save_logs params none = file_missing
  save_logs params (some progress) =
      let results = dump params progress.logs in
      report_of_results progress results (report_main numbers dumps js_function (load results))

  run_settings : Params → World → Result Node → Session Time World
  unfolding process run_configs save_logs
  run_settings params world (raised e) = stopped e
  run_settings params world (ok config_root) = save_logs params (
      run_configs machine params.module_name params.num_runs params.timeout
        (process config_root empty_config []) world)

  unfoldable pub session : Params → World → Session Time World
  unfolding read_settings run_settings
  session params world = run_settings params world (read_settings params.settings)
