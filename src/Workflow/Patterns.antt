-- ===== src/Workflow/Patterns.antt =====
-- The compiled patterns of internal/workflow and internal/domain, as tests on the characters.
use ctrldb.Prelude.{
  ℕ, String, Bool, false, List, [], ◌∷◌, codes, after, exactly, at_most, is_hex, is_lower, is_upper,
  is_digit, is_slug, ◌&&◌, ◌||◌, ◌==◌,
}

-- `^op-[0-9a-f]{16}$`
unfoldable pub is_operation_id : String → Bool
is_operation_id s = after (codes "op-") (exactly is_hex 16) (codes s)

-- `^plan-[0-9a-f]{16}$`
unfoldable pub is_plan_id : String → Bool
is_plan_id s = after (codes "plan-") (exactly is_hex 16) (codes s)

-- `^[a-z][a-z0-9-]{0,63}$` on the characters
abbrev first_lower : List ℕ → Bool
first_lower [] = false
first_lower (c ∷ cs) = is_lower c && at_most is_slug 63 cs

-- `stepIDPattern` and `executionIdentifierPattern`: `^[a-z][a-z0-9-]{0,63}$`
unfoldable pub is_step_id : String → Bool
is_step_id s = first_lower (codes s)

-- `^[0-9a-f]{64}$`
unfoldable pub is_contract_digest : String → Bool
is_contract_digest s = exactly is_hex 64 (codes s)

-- `[A-Z0-9]`
abbrev is_group : ℕ → Bool
is_group c = is_upper c || is_digit c

-- `[A-Z0-9]*-[0-9]{2}$`, at every split: the class has no `-`, so the first `-` ends the group.
group_then_number : List ℕ → Bool
group_then_number [] = false
group_then_number (c ∷ cs) =
    (c == b'-' && exactly is_digit 2 cs) || (is_group c && group_then_number cs)

-- `[A-Z0-9]+-[0-9]{2}$`
abbrev group_number : List ℕ → Bool
group_number [] = false
group_number (c ∷ cs) = is_group c && group_then_number cs

-- `^WF-[A-Z0-9]+-[0-9]{2}$`
unfoldable pub is_workflow_id : String → Bool
unfolding group_then_number
is_workflow_id s = after (codes "WF-") group_number (codes s)
