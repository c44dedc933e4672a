-- ===== src/Runner/Session/EndToEnd.antt =====
-- What a session of tools/pms.py writes, from the settings on.
use optimer.Prelude.{List, Option-cases, [], ap, inl, inr, map, refl, subst, sym, ◌++◌, ◌≡◌}
use optimer.Result.{Result, ok, raised}
use optimer.Report.Html.{LogRow, report_main}
use optimer.Runner.{Progress, RunLog, run_configs}
use optimer.Runner.Session.{
  Outside, Params, Saved, Session, file_missing, report_failed, report_of_results, result_filename,
  run_settings, save_logs, saved, session, stopped,
}
use optimer.Text.{Text, codes}
use optimer.Generator.{Config, Node, empty_config, process, read_settings}
use optimer.Generator.Paths.{paths, process-paths, under}
use optimer.Runner.Logs.{RunsOfAll, logs-run_configs}

-- the row that a log is read back as
unfoldable pub row_of : {Time : Type 0} → RunLog Time → LogRow
row_of log = record { task_name = log.task_name; output = log.output }

-- what `yaml` promises: what was dumped is loaded again
unfoldable pub YamlReturns : {Time World : Type 0} → Outside Time World → Type 0
unfolding row_of
YamlReturns {Time} {World} outside =
    (params : Params) (logs : List (RunLog Time))
    → outside.load (outside.dump params logs) ≡ map row_of logs

module _ {Time World : Type 0} (outside : Outside Time World) (params : Params) where
  open outside use {machine, now, dump, numbers, dumps, js_function}

  -- The logs of the session are those that the runs of the configurations of all paths of the tree
  -- leave, from a state of the outside on; the results and the report are made of these logs.
  pub record IsSaved (root : Node) (world : World) (files : Saved Time World) : Type 0 where
    pub runs :
        RunsOfAll machine params.module_name params.num_runs params.timeout
          (under empty_config (paths root))
          world
          files.progress.logs
          files.progress.world
    pub results_dumped : files.results ≡ dump params files.progress.logs
    pub results_named : files.result_filename ≡ codes "pms_result." ++ now ++ codes ".yaml"
    pub reported :
        report_main numbers dumps js_function (map row_of files.progress.logs) ≡ ok files.report

  Saves : Node → World → Session Time World → Type 0
  Saves root world (stopped e) = Unit
  Saves root world file_missing = Unit
  Saves root world (report_failed results e) = Unit
  Saves root world (saved files) = IsSaved root world files

  report_of_results-Saves :
      (root : Node) (world : World) (progress : Progress Time World) (report : Result Text)
      → RunsOfAll machine params.module_name params.num_runs params.timeout
          (under empty_config (paths root))
          world
          progress.logs
          progress.world
      → report_main numbers dumps js_function (map row_of progress.logs) ≡ report
      → Saves root world (report_of_results outside progress (dump params progress.logs) report)
  unfolding Saves report_of_results result_filename
  report_of_results-Saves root world progress (raised e) runs made = tt
  report_of_results-Saves root world progress (ok report) runs made = record {
    runs = runs;
    results_dumped = refl;
    results_named = refl;
    reported = made;
  }

  run_settings-Saves :
      (root : Node) (world : World)
      → YamlReturns outside
      → Saves root world (run_settings outside params world (ok root))
  unfolding run_settings save_logs Saves YamlReturns
  run_settings-Saves root world returns =
      let configs = process root empty_config [] in
      let run =
        run_configs machine params.module_name params.num_runs params.timeout configs world in
      elim (Option-cases run) [
        | inr missing ↦ rw missing tt
        | inl (progress, e) ↦
            let runs =
              logs-run_configs machine params.module_name params.num_runs params.timeout configs
                world progress e in
            rw e (
              report_of_results-Saves root world progress _
                (subst
                  (λ (cs : List Config).
                    RunsOfAll machine params.module_name params.num_runs params.timeout cs world
                      progress.logs progress.world)
                  (process-paths root empty_config []) runs)
                (ap (report_main numbers dumps js_function) (sym (returns params progress.logs))))
      ]

  -- Where YAML gives back what was written, the settings are read as a tree and the session saves
  -- its files: the logs are those that the runs of the configurations of all paths of the tree
  -- leave, in the order of the paths, with the state of the outside passed on from run to run. The
  -- results are what YAML makes of the settings and these logs, under the name with the time, and
  -- the report is what the report on these logs is.
  pub session-IsSaved :
      (root : Node) (world : World) (files : Saved Time World)
      → YamlReturns outside
      → read_settings params.settings ≡ ok root
      → session outside params world ≡ saved files
      → IsSaved root world files
  unfolding session Saves
  session-IsSaved root world files returns read ends =
      subst (Saves root world) (rw (session, read) at ends) (run_settings-Saves root world returns)
