-- ===== src/Domain/Approval.antt =====
-- internal/domain/approval.go: approval classes, ordered by the safeguards that they require.
pub mod Strongest
use ctrldb.Prelude.{
  ℕ, List, String, Bool, Result, Option, reject_if, ◌∷◌, none, ltb, get_elem?, err, ok, [],
  if◌then◌else◌, some, not, str_eq, ◌>>◌, ◌+◌,
}

-- A uint8.
abbrev pub ApprovalClass : Type 0
ApprovalClass = ℕ

abbrev pub approval_read : ApprovalClass
approval_read = 0

abbrev pub approval_security_sensitive : ApprovalClass
approval_security_sensitive = 3

abbrev pub approval_destructive : ApprovalClass
approval_destructive = 4

abbrev pub approval_data_destructive : ApprovalClass
approval_data_destructive = 5

abbrev pub approval_class_names : List String
approval_class_names =
    "read" ∷ "safe-write" ∷ "protected" ∷ "security-sensitive" ∷ "destructive" ∷ "data-destructive"
    ∷ []

-- `approvalClassCount`
abbrev pub approval_class_count : ℕ
approval_class_count = 6

pub data ApprovalError : Type 0 where
  unknown_name : String → ApprovalError
  unknown_class : ApprovalClass → ApprovalError
  nil_class : ApprovalError
  no_classes : ApprovalError

-- The loop of `ParseApprovalClass`, from the index `i` on.
abbrev index_of : ℕ → List String → String → Option ApprovalClass
index_of i [] value = none
index_of i (name ∷ names) value = if str_eq value name then some i else index_of (i + 1) names value

-- `ParseApprovalClass`
unfoldable pub parse_approval_class : String → Result ApprovalError ApprovalClass
parse_approval_class value = elim (index_of 0 approval_class_names value) [
  | none ↦ err (unknown_name value)
  | some class ↦ ok class
]

-- `Valid`
abbrev pub approval_class_valid : ApprovalClass → Bool
approval_class_valid class = ltb class approval_class_count

-- `MarshalText`, where `String` of a valid class is its name.
unfoldable pub marshal_approval_class : ApprovalClass → Result ApprovalError String
marshal_approval_class class = elim (get_elem? approval_class_names class) [
  | none ↦ err (unknown_class class)
  | some name ↦ ok name
]

-- `UnmarshalText` through a pointer that may be nil, with what its target holds afterwards.
unfoldable pub unmarshal_approval_class :
    Option ApprovalClass → String → Result ApprovalError (Unit {0}) × Option ApprovalClass
unfolding parse_approval_class
unmarshal_approval_class none text = (err nil_class, none)
unmarshal_approval_class (some old) text = elim (parse_approval_class text) [
  | ok class ↦ (ok tt, some class)
  | err e ↦ (err e, some old)
]

-- The loop of `MaxApprovalClass`.
unfoldable pub strongest_of :
    ApprovalClass → List ApprovalClass → Result ApprovalError ApprovalClass
unfolding reject_if
strongest_of strongest [] = ok strongest
strongest_of strongest (class ∷ classes) =
    reject_if (not (approval_class_valid class)) (unknown_class class)
    >> strongest_of (if ltb strongest class then class else strongest) classes

-- `MaxApprovalClass`
unfoldable pub max_approval_class : List ApprovalClass → Result ApprovalError ApprovalClass
unfolding strongest_of
max_approval_class [] = err no_classes
max_approval_class (class ∷ classes) = strongest_of approval_read (class ∷ classes)
