-- ===== src/Control/Handoff/Durable.antt =====
-- The directory that internal/control/handoff.go leaves can be read again: whatever fails in a run,
-- the next run resumes from its records.
use ctrldb.Prelude.{none, true, ok, List, ◌≡◌, codes}
use ctrldb.Control.Names.{is_operation_text}
use ctrldb.Control.Handoff.Records.{listed, sorted, read_chain, read_handoff_records}
use ctrldb.Control.Handoff.Chain.Extends.{IsFaithful}
use ctrldb.Control.Handoff.Step.{Surroundings, HandoffState}
use ctrldb.Control.Handoff.{BootstrapEnvelope, File, HandoffRecord, phase_order_unknown}
use ctrldb.Domain.Time.{Time}
use ctrldb.Workflow.Patterns.{is_contract_digest}

module _ {W : Type 0} (around : Surroundings W) (e : BootstrapEnvelope)
    (faithful : IsFaithful around e) (sealed : is_contract_digest e.sha256 ≡ true) where
  -- The directory reads as these records.
  abbrev Reads : List File → List HandoffRecord → Type 0
  Reads files records =
      (entries : List File) × (listed files ≡ ok entries)
      × (read_chain around e 0 phase_order_unknown none (sorted entries) ≡ ok records)

  abbrev IsReadable : HandoffState W → Type 0
  IsReadable s =
      (records : List HandoffRecord) × (read_handoff_records around s.files e ≡ ok records)

  -- In a session, the records read back are those that it holds.
  abbrev IsInStep : HandoffState W → Type 0
  IsInStep s = (is_operation_text (codes e.operation_id) ≡ true) × Reads s.files s.records
