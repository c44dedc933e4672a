-- ===== src/Generator.antt =====
-- tools/config_generator.py: a tree of sections and properties, and the configurations that it
-- stands for.
pub mod Paths
pub mod Settings
use optimer.Prelude.{List, Option, [], map, none, some, ◌++◌, ◌∷◌}
use optimer.Text.{Text, codes, join}
use optimer.Result.{Result, key_error, name_error, ok, raised, type_error, ◌>>=◌}

pub record Config : Type 0 where
  pub lines : List Text

abbrev pub empty_config : Config
empty_config = record { lines = [] }

-- A new configuration: the lines of the old one are copied.
unfoldable pub append : Config → Text → Config
append c line = record { lines = c.lines ++ line ∷ [] }

concat : List Text → Text
concat [] = []
concat (t ∷ ts) = t ++ concat ts

-- `__str__`, and what `write` writes
unfoldable pub config_str : Config → Text
unfolding concat
config_str c = concat (map (λ line. line ++ b'\n' ∷ []) c.lines)

unfoldable pub config_name : Config → Text
unfolding join
config_name c = join (codes ":") c.lines

mutual
  pub data Node : Type 0 where
    section : Text → Nodes → Node
    property : Text → List Text → Nodes → Node

  pub data Nodes : Type 0 where
    end : Nodes
    child : Node → Nodes → Nodes

fold_values : (Text → List Config → List Config) → List Text → List Config → List Config
fold_values f [] config_list = config_list
fold_values f (v ∷ vs) config_list = fold_values f vs (f v config_list)

-- `process`, `__process_childs` and the loop in it; the list that they add to is passed on.
unfoldable mutual
  unfolding fold_values append

  pub process : Node → Config → List Config → List Config
  process (section name childs) config config_list =
      process_childs childs (append config (b'[' ∷ name ++ codes "]")) config_list
  process (property name values childs) config config_list =
      fold_values (λ value l. process_childs childs (append config (name ++ b'=' ∷ value)) l) values
        config_list

  pub process_childs : Nodes → Config → List Config → List Config
  process_childs end config config_list = config_list ++ config ∷ []
  process_childs (child c cs) config config_list =
      process_rest cs config (process c config config_list)

  pub process_rest : Nodes → Config → List Config → List Config
  process_rest end config config_list = config_list
  process_rest (child c cs) config config_list =
      process_rest cs config (process c config config_list)

-- The dicts of a settings file, by the keys that the reader asks for. A key that is not there is
-- `none`; a missing 'childs' reads like an empty one.
mutual
  pub data Body : Type 0 where
    body : Option Text → Option (List Text) → Children → Body

  pub data Children : Type 0 where
    last : Children
    next : Child → Children → Children

  pub data Child : Type 0 where
    neither : Child
    with_section : Body → Child
    with_property : Body → Child
    with_both : Body → Body → Child

-- data[key]
abbrev pub required {ℓ} : {A : Type ℓ} → Text → Option A → Result A
required key none = raised (key_error key)
required key (some a) = ok a

-- `_read_section`, `_read_property` and `_read_childs`. The error for a child that is neither adds
-- a dict to a text, so Python raises `TypeError` in its place.
unfoldable mutual
  pub read_section : Body → Result Node
  read_section (body name values childs) = do
    n ← required (codes "name") name
    cs ← read_childs childs
    ok (section n cs)

  pub read_property : Body → Result Node
  read_property (body name values childs) = do
    n ← required (codes "name") name
    vs ← required (codes "values") values
    cs ← read_childs childs
    ok (property n vs cs)

  pub read_childs : Children → Result Nodes
  read_childs last = ok end
  read_childs (next c cs) = do n ← read_child c; ns ← read_childs cs; ok (child n ns)

  pub read_child : Child → Result Node
  read_child neither = raised type_error
  read_child (with_section b) = read_section b
  read_child (with_property b) = read_property b
  read_child (with_both b b') = read_section b

-- The branch for a file that is neither names a variable that does not exist.
unfoldable pub read_settings : Child → Result Node
unfolding read_section read_property
read_settings neither = raised (name_error (codes "filepath"))
read_settings (with_section b) = read_section b
read_settings (with_property b) = read_property b
read_settings (with_both b b') = read_section b
