-- ===== src/Workflow/Definition/Defined.antt =====
-- `NewDefinition` of internal/workflow/definition.go returns definitions with sound contracts.
use ctrldb.Workflow.Definition.{Definition}
