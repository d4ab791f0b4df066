-- ===== src/Workflow/Definition/Registered.antt =====
-- The registry of internal/workflow/definition.go as a map from IDs.
use ctrldb.Prelude.{none, some, Option, List, String, ◌∷◌, [], str_eq, if◌then◌else◌}
use ctrldb.Workflow.Definition.{Definition, clone_definition}

-- The definition of a list that has the ID, without its trigger; the value found before, if any.
abbrev pub found : Option Definition → String → List Definition → Option Definition
found (some d) id definitions = some d
found none id [] = none
found none id (d ∷ definitions) =
    if str_eq d.workflow_id id then some (clone_definition d) else found none id definitions
