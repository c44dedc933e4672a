-- ===== src/Tests/Generator.antt =====
-- The tree of `_test` in tools/config_generator.py, and a settings file.
use optimer.Prelude.{String, [], length, map, none, refl, some, ◌++◌, ◌↔◌, ◌∷◌, ◌≡◌}
use optimer.Text.{codes}
use optimer.Result.{ok}
use optimer.Generator.{
  Child, Node, body, child, config_name, empty_config, end, last, process, property, read_settings,
  section, with_property,
}
use optimer.Generator.Paths.{length-process, paths, process-paths, size, under}
use optimer.Generator.Settings.{IsComplete, document, read_settings-document, read_settings_iff}

abbrev leaf : String → String → Node
leaf name value = property (codes name) (codes value ∷ []) end

abbrev scheduler : Node
scheduler = section (codes "scheduler") (
    child (property (codes "num_threads") (codes "2" ∷ codes "4" ∷ codes "6" ∷ codes "8" ∷ []) end)
      end)

abbrev parallel : Node
parallel = property (codes "valuation_type") (codes "parallel" ∷ []) (child scheduler end)

abbrev tree : Node
tree = section (codes "main") (
    child
      (property (codes "branching_rule") (codes "3" ∷ codes "4" ∷ [])
        (child (leaf "valuation_type" "serial") (child parallel end)))
      end)

process-paths_example : process tree empty_config [] ≡ [] ++ under empty_config (paths tree)
process-paths_example = process-paths tree empty_config []

length-process_example : length (process tree empty_config []) ≡ size tree
length-process_example = length-process tree empty_config

size-tree : size tree ≡ 10
unfolding size
size-tree = refl

first_name : map config_name (process (leaf "a" "1") empty_config []) ≡ codes "a=1" ∷ []
unfolding process config_name
first_name = refl

read_settings-document_example : read_settings (document tree) ≡ ok tree
read_settings-document_example = read_settings-document tree

abbrev nameless : Child
nameless = with_property (body none (some (codes "3" ∷ [])) last)

read_settings_iff_example : ((n : Node) × (read_settings nameless ≡ ok n)) ↔ IsComplete nameless
read_settings_iff_example = read_settings_iff nameless
