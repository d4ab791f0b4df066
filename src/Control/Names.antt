-- ===== src/Control/Names.antt =====
-- The names of the objects in internal/control/store.go, and the patterns of envelope.go that they
-- are checked against. A text is the list of its characters' codes.
pub mod Decoded
use ctrldb.Prelude.{
  ℕ, zero, suc, Bool, false, List, [], ◌∷◌, ◌++◌, Result, ok, err, codes, after, exactly, at_most,
  is_hex, is_lower, is_digit, is_slug, ◌&&◌, ◌||◌, if◌then◌else◌, not,
}
use ctrldb.Control.Store.{StoreError, invalid_object_name}
use ctrldb.Domain.Journal.{JournalEntry}
use ctrldb.Workflow.Journal.ObjectName.{journal_object_name}
use ctrldb.Workflow.Journal.Entry.{JournalError}

-- `[a-z0-9-]{0,n}[a-z0-9]$`
abbrev pub ends_label : ℕ → List ℕ → Bool
ends_label n [] = false
ends_label n (c ∷ []) = is_lower c || is_digit c
ends_label zero (c ∷ d ∷ cs) = false
ends_label (suc n) (c ∷ d ∷ cs) = is_slug c && ends_label n (d ∷ cs)

-- `environmentPattern`: `^[a-z](?:[a-z0-9-]{0,61}[a-z0-9])?$`
abbrev pub is_environment : List ℕ → Bool
is_environment [] = false
is_environment (c ∷ []) = is_lower c
is_environment (c ∷ d ∷ cs) = is_lower c && ends_label 61 (d ∷ cs)

-- `canonicalIDPattern`: `^[a-z][a-z0-9-]{0,63}$`
abbrev pub is_canonical_id : List ℕ → Bool
is_canonical_id [] = false
is_canonical_id (c ∷ cs) = is_lower c && at_most is_slug 63 cs

-- `operationIDPattern` and `planIDPattern`
abbrev pub is_operation_text : List ℕ → Bool
is_operation_text = after (codes "op-") (exactly is_hex 16)

abbrev pub is_plan_text : List ℕ → Bool
is_plan_text = after (codes "plan-") (exactly is_hex 16)

-- A name that is formed from checked parts.
abbrev pub named : Bool → List ℕ → Result StoreError (List ℕ)
named valid name = if not valid then err invalid_object_name else ok name

-- `LockObjectName`
unfoldable pub lock_object_name : List ℕ → Result StoreError (List ℕ)
lock_object_name environment =
    named (is_environment environment) (codes "locks/" ++ environment ++ codes ".json")

-- `HarnessStateObjectName`
unfoldable pub harness_state_object_name : List ℕ
harness_state_object_name = codes "test/harness-state.json"

-- `OwnershipRecordObjectName`
unfoldable pub ownership_record_object_name : List ℕ → List ℕ → Result StoreError (List ℕ)
ownership_record_object_name environment resource_id =
    named (is_environment environment && is_canonical_id resource_id)
      (codes "test/ownership/" ++ (environment ++ (codes "/" ++ (resource_id ++ codes ".json"))))

-- `LifetimeRecordObjectName`
unfoldable pub lifetime_record_object_name : List ℕ → List ℕ → Result StoreError (List ℕ)
lifetime_record_object_name environment run_id =
    named (is_environment environment && is_canonical_id run_id)
      (codes "test/lifetime/" ++ (environment ++ (codes "/" ++ (run_id ++ codes ".json"))))

-- `AdoptionObjectName`
unfoldable pub adoption_object_name : List ℕ → Result StoreError (List ℕ)
adoption_object_name environment =
    named (is_environment environment) (codes "adoption/" ++ environment ++ codes ".json")

-- `ApprovedPolicyObjectName`
unfoldable pub approved_policy_object_name : List ℕ → Result StoreError (List ℕ)
approved_policy_object_name environment =
    named (is_environment environment)
      (codes "policy/" ++ environment ++ codes "/manifest-approved.json")

-- `CostCeilingObjectName`
unfoldable pub cost_ceiling_object_name : List ℕ → Result StoreError (List ℕ)
cost_ceiling_object_name environment =
    named (is_environment environment)
      (codes "policy/" ++ environment ++ codes "/cost-ceiling.json")

-- `PlanObjectName`
unfoldable pub plan_object_name : List ℕ → List ℕ → Result StoreError (List ℕ)
plan_object_name environment plan_id =
    named (is_environment environment && is_plan_text plan_id)
      (codes "plans/" ++ (environment ++ (codes "/" ++ (plan_id ++ codes ".json"))))

-- `PlanApprovalObjectName`
unfoldable pub plan_approval_object_name : List ℕ → List ℕ → Result StoreError (List ℕ)
plan_approval_object_name environment plan_id =
    named (is_environment environment && is_plan_text plan_id)
      (codes "plans/" ++ (environment ++ (codes "/" ++ (plan_id ++ codes "-approval.json"))))

-- `OperationRecordObjectName`
unfoldable pub operation_record_object_name : List ℕ → List ℕ → Result StoreError (List ℕ)
operation_record_object_name environment operation_id =
    named (is_environment environment && is_operation_text operation_id)
      (codes "operations/" ++ (environment ++ (codes "/" ++ (operation_id ++ codes ".json"))))

-- `BootstrapEnvelopeObjectName`
unfoldable pub bootstrap_envelope_object_name : List ℕ → List ℕ → Result StoreError (List ℕ)
bootstrap_envelope_object_name environment operation_id =
    named (is_environment environment && is_operation_text operation_id) (
      codes "operations/"
      ++ environment
      ++ codes "/"
      ++ operation_id
      ++ codes "/bootstrap-envelope.json")

-- `JournalEntryObjectName` with the file name of the entry.
abbrev pub journal_entry_name :
    List ℕ → JournalEntry → Result JournalError (List ℕ) → Result StoreError (List ℕ)
journal_entry_name environment entry (err _) = err invalid_object_name
journal_entry_name environment entry (ok file) = ok (
    codes "operations/"
    ++ environment
    ++ codes "/"
    ++ codes entry.operation_id
    ++ codes "/steps/"
    ++ file)

-- `JournalEntryObjectName`
unfoldable pub journal_entry_object_name : List ℕ → JournalEntry → Result StoreError (List ℕ)
unfolding journal_object_name
journal_entry_object_name environment entry =
    if not (is_environment environment)
    then err invalid_object_name
    else journal_entry_name environment entry (journal_object_name entry)
