-- ===== src/Runner.antt =====
-- tools/pms.py: running a solver on the configurations. What the processes, the
-- timer and the file system do to an unknown state of the outside is a parameter.
pub mod Logs
pub mod Session
use mathlib.Core.Option
use optimer.Prelude.{
  Bool, List, Option, [], drop, false, if◌then◌else◌, length, none, some, suc, zero, ℕ, ◌++◌, ◌+◌,
  ◌==◌, ◌∷◌,
}
use optimer.Text.{Text, codes, find, is_empty, split}
use optimer.Generator.{Config, config_name, config_str}

-- process.returncode: negative where a signal has ended the process
pub data ReturnCode : Type 0 where
  exited : ℕ → ReturnCode
  killed : ℕ → ReturnCode

abbrev pub is_success : ReturnCode → Bool
is_success (exited n) = n == 0
is_success (killed n) = false

pub record RunningResult (Time : Type 0) : Type 0 where
  pub stdout : Text
  pub stderr : Text
  pub running_time : Time
  pub return_code : ReturnCode
  pub log_filename : Text

-- what process.communicate() returns, with the readings of the timer before and behind it
pub record Communication (Time : Type 0) : Type 0 where
  pub stdout : Text
  pub stderr : Text
  pub return_code : ReturnCode
  pub start_time : Time
  pub end_time : Time

-- `RunningResult.__init__`, behind the call of communicate
unfoldable pub running_result :
    {Time : Type 0} → (Time → Time → Time) → Communication Time → RunningResult Time
running_result minus c = record {
  stdout = c.stdout;
  stderr = c.stderr;
  running_time = minus c.end_time c.start_time;
  return_code = c.return_code;
  log_filename = [];
}

-- the time behind which the process is terminated; a timeout that is not positive is 0
unfoldable pub limit : ℕ → Option ℕ
limit zero = none
limit (suc timeout) = some (suc timeout)

abbrev pattern : Text
pattern = codes "log location:"

-- the first line with the pattern, from one code behind it
log_line : List Text → Option Text
unfolding find
log_line [] = none
log_line (line ∷ lines) =
    let later = log_line lines in
    elim (find line pattern) [
      | some pos ↦ some (drop (pos + length pattern + 1) line)
      | none ↦ later
    ]

abbrev or_text : Text → Option Text → Text
or_text d none = d
or_text d (some t) = t

-- `get_log_filename`: the name that is found is kept in the object.
unfoldable pub get_log_filename : {Time : Type 0} → RunningResult Time → RunningResult Time × Text
unfolding log_line split
get_log_filename r =
    let name =
      if is_empty r.log_filename
      then or_text [] (log_line (split b'\n' r.stderr))
      else r.log_filename in
    (record r { log_filename = name }, name)

pub record RunLog (Time : Type 0) : Type 0 where
  pub task_name : Text
  pub running_time : Time
  pub output : Text

-- What the program asks of the outside, over an unknown state of it. `communicate` is what the
-- process with these arguments writes and returns, where it is terminated behind the limit, and what
-- it leaves behind; `minus` is the difference of two readings of the timer. `create` writes a text to
-- a temporary file, which is kept, and gives its name. `none` is an IOError or an OSError.
pub record Machine (Time World : Type 0) : Type 0 where
  pub communicate : List Text → Option ℕ → World → Communication Time × World
  pub minus : Time → Time → Time
  pub create : Text → World → Text × World
  pub read_file : Text → World → Option Text
  pub unlink : Text → World → Option World

-- What has been done so far: the logs that are kept, and the state of the outside.
pub record Progress (Time World : Type 0) : Type 0 where
  pub logs : List (RunLog Time)
  pub world : World

unfoldable pub run_task :
    {Time World : Type 0} → Machine Time World → List Text → ℕ → World → RunningResult Time × World
unfolding running_result limit
run_task machine args timeout world =
    let (c, after) = machine.communicate args (limit timeout) world in
    (running_result machine.minus c, after)

module _ {Time World : Type 0} (machine : Machine Time World) (module_name : Text)
    (num_runs timeout : ℕ) where
  open machine use {create, read_file, unlink}

  -- log['output'] = f.read(), and the log goes to the list
  abbrev pub log_of : Config → RunningResult Time → Text → RunLog Time
  log_of config res output = record {
    task_name = config_name config;
    running_time = res.running_time;
    output = output;
  }

  -- The branch of a run that has returned 0: the log file is read, and then unlinked.
  unfoldable pub keep_log :
      Config → RunningResult Time → Progress Time World → Option (Progress Time World)
  unfolding get_log_filename config_name Option.bind
  keep_log config res p =
      let log_filename = (get_log_filename res).1 in
      Option.bind (read_file log_filename p.world) λ output.
        Option.map
          (λ world. record { logs = p.logs ++ log_of config res output ∷ []; world = world })
          (unlink log_filename p.world)

  unfoldable pub run_once : Config → Text → Progress Time World → Option (Progress Time World)
  unfolding keep_log run_task
  run_once config config_filename p =
      let (res, world) = run_task machine (module_name ∷ config_filename ∷ []) timeout p.world in
      let q = record p { world = world } in
      if is_success res.return_code then keep_log config res q else some q

  -- the runs of one configuration that are left
  unfoldable pub run_times : Config → Text → ℕ → Progress Time World → Option (Progress Time World)
  unfolding run_once Option.bind
  run_times config config_filename zero p = some p
  run_times config config_filename (suc left) p =
      Option.bind (run_once config config_filename p) (run_times config config_filename left)

  unfoldable pub run_from : List Config → Progress Time World → Option (Progress Time World)
  unfolding run_times config_str Option.bind
  run_from [] p = some p
  run_from (config ∷ configs) p =
      let (config_filename, world) = create (config_str config) p.world in
      Option.bind (run_times config config_filename num_runs (record p { world = world }))
        (run_from configs)

  unfoldable pub run_configs : List Config → World → Option (Progress Time World)
  unfolding run_from
  run_configs config_list world = run_from config_list (record { logs = []; world = world })
