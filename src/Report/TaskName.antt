-- ===== src/Report/TaskName.antt =====
-- `parse_task_name` of tools/pms_report.py.
pub mod Entries
use optimer.Prelude.{List, Option, [], if◌then◌else◌, none, some, ◌++◌, ◌∷◌}
use optimer.Text.{Text, codes, join, split, strip, text_eq}
use optimer.OsPath.{basename}
use optimer.Result.{Result, key_error, ok, raised, ◌>>=◌}

abbrev pub Dict {ℓ} : Type ℓ → Type ℓ
Dict V = List (Text × V)

-- d.get(key)
unfoldable pub lookup {ℓ} : {V : Type ℓ} → Text → Dict V → Option V
unfolding text_eq
lookup key [] = none
lookup key ((k, v) ∷ d) = if text_eq k key then some v else lookup key d

-- d[key] = value: a new key goes to the end
unfoldable pub insert {ℓ} : {V : Type ℓ} → Text → V → Dict V → Dict V
unfolding text_eq
insert key value [] = (key, value) ∷ []
insert key value ((k, v) ∷ d) =
    if text_eq k key then (k, value) ∷ d else (k, v) ∷ insert key value d

abbrev pub required_key {ℓ} : {V : Type ℓ} → Text → Dict V → Result V
required_key key d = elim (lookup key d) [ none ↦ raised (key_error key) | some v ↦ ok v ]

-- one part of the task name: `parts` is line.split('=')
unfoldable pub add_entry : List Text → Dict Text → Dict Text
unfolding insert strip
add_entry (key ∷ value ∷ []) entries = insert (strip key) (strip value) entries
add_entry _ entries = entries

unfoldable pub add_entries : List Text → Dict Text → Dict Text
unfolding split add_entry
add_entries [] entries = entries
add_entries (line ∷ lines) entries = add_entries lines (add_entry (split b'=' line) entries)

unfoldable pub entries_of : Text → Dict Text
unfolding split add_entries
entries_of task_name = add_entries (split b':' task_name) []

abbrev separator : Text
separator = codes ", "

-- what follows `problem_path` and `container_type` in the two names
problem_suffix : Option Text → Text
problem_suffix none = []
problem_suffix (some size) = b':' ∷ size

branching_setting : Option Text → List Text
branching_setting none = []
branching_setting (some rule) = (codes "branching_rule=" ++ rule) ∷ []

or_default : Text → Option Text → Text
or_default d none = d
or_default d (some v) = v

nodes_suffix : Option Text → Option Text → Text
nodes_suffix none maximum = []
nodes_suffix (some minimum) none = b'(' ∷ minimum ++ codes ")"
nodes_suffix (some minimum) (some maximum) = b'(' ∷ minimum ++ b':' ∷ maximum ++ codes ")"

solver_settings : Dict Text → Text → Text → Text
unfolding branching_setting or_default nodes_suffix join
solver_settings entries container_type valuation_type = join separator (
    (container_type ∷ branching_setting (lookup (codes "branching_rule") entries))
    ++ (valuation_type
        ++ separator
        ++ or_default (codes "1") (lookup (codes "num_threads") entries)
        ++ separator
        ++ or_default (codes "none") (lookup (codes "type") entries)
        ++ nodes_suffix (lookup (codes "num_minimum_nodes") entries)
            (lookup (codes "num_maximum_nodes") entries))
      ∷ [])

-- (problem_name, solver settings)
unfoldable pub names_of : Dict Text → Result (Text × Text)
unfolding basename problem_suffix solver_settings lookup
names_of entries = do
  problem_path ← required_key (codes "problem_path") entries
  container_type ← required_key (codes "container_type") entries
  valuation_type ← required_key (codes "valuation_type") entries
  ok (
    basename problem_path ++ problem_suffix (lookup (codes "problem_size") entries),
    solver_settings entries container_type valuation_type,
  )

unfoldable pub parse_task_name : Text → Result (Text × Text)
unfolding names_of entries_of
parse_task_name task_name = names_of (entries_of task_name)
