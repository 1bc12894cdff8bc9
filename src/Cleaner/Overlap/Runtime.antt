-- ===== src/Cleaner/Overlap/Runtime.antt =====
-- internal/cleaner/overlap_safety_runtime.go: the overlap safety of a selection of targets.
pub mod Selection
pub mod Bytes
pub mod Examples
pub mod Selected
use aibris.Prelude.{
  ℕ, ℤ, pos, Text, codes, List, [], ◌∷◌, ◌++◌, map, Bool, true, false, ◌&&◌, ◌||◌, not, Option,
  none, some, ◌⊎◌, inl, inr, if◌then◌else◌, text_eq, text_lt, is_empty, any_of, sort, ◌==◌,
}
use aibris.Types.{
  DebrisInfo, EntryClass, class_text, is_agent_state, is_orphaned, is_worktree, is_active,
  category_text,
}
use aibris.Cleaner.Items.{FileSystem, target_path_key, target_stable_key}
use aibris.Cleaner.Targets.{normalize_targets}
use aibris.Cleaner.Owner.{physical_owner_item_key}
use aibris.Cleaner.Overlap.{
  OverlapSafetyReason, OverlapSafetyRelation, OverlapSafetyRefusal, OverlapSafetyMatch,
  AgentStateObligation, OverlapSafetyComponent, OverlapSafetyEvidence, allowed_targets,
}
use aibris.Cleaner.Overlap.Entries.{Context}
use aibris.Cleaner.Overlap.Component.{Lookup}
use aibris.Cleaner.Overlap.Plan.{PlanError, PlanResult, build_overlap_safety_plan}
use aibris.Cleaner.Overlap.Rows.{
  RowRelation, LogicalInput, LogicalRow, logical_relation, logical_policy_reason, ensure_owner_row,
  sort_rows,
}

-- CleanupOverlapComponent
pub record CleanupComponent : Type 0 where
  pub key : Text
  pub canonical_path : Text
  pub owner : DebrisInfo
  pub rows : List LogicalRow
  pub obligations : List AgentStateObligation
  pub refusal : Option OverlapSafetyRefusal

-- CleanAuditReason, as far as overlap safety gives one.
pub data OverlapAuditReason : Type 0 where
  protected_agent_state_ancestor protected_agent_state_descendant ambiguous_overlap_identity
        command_overlap nested_revalidation :
      OverlapAuditReason

-- AuditReasonForOverlapSafety
unfoldable pub audit_reason_for_overlap_safety : OverlapSafetyReason → OverlapAuditReason
audit_reason_for_overlap_safety OverlapSafetyReason.protected_ancestor =
    OverlapAuditReason.protected_agent_state_ancestor
audit_reason_for_overlap_safety OverlapSafetyReason.protected_descendant =
    OverlapAuditReason.protected_agent_state_descendant
audit_reason_for_overlap_safety OverlapSafetyReason.protected_exact =
    OverlapAuditReason.protected_agent_state_descendant
audit_reason_for_overlap_safety OverlapSafetyReason.ambiguous_identity =
    OverlapAuditReason.ambiguous_overlap_identity
audit_reason_for_overlap_safety OverlapSafetyReason.command_overlap =
    OverlapAuditReason.command_overlap
audit_reason_for_overlap_safety OverlapSafetyReason.nested_revalidation =
    OverlapAuditReason.nested_revalidation

abbrev pub reason_text : OverlapSafetyReason → Text
reason_text OverlapSafetyReason.protected_ancestor = codes "protected agent-state ancestor"
reason_text OverlapSafetyReason.protected_descendant = codes "protected agent-state descendant"
reason_text OverlapSafetyReason.protected_exact = codes "protected agent-state exact overlap"
reason_text OverlapSafetyReason.ambiguous_identity = codes "ambiguous overlap path identity"
reason_text OverlapSafetyReason.command_overlap = codes "cleanup command overlaps agent-state"
reason_text OverlapSafetyReason.nested_revalidation =
    codes "nested agent-state revalidation refused"

abbrev is_ambiguous : OverlapSafetyRelation → Bool
is_ambiguous OverlapSafetyRelation.ambiguous = true
is_ambiguous _ = false

abbrev same_item : OverlapSafetyMatch → DebrisInfo → Bool
same_item found item = text_eq found.item.tool item.tool && text_eq found.item.id item.id

-- cleanupSafetyMatchForInput
unfoldable pub match_for_input : List OverlapSafetyMatch → DebrisInfo → Option OverlapSafetyMatch
match_for_input [] item = none
match_for_input (found ∷ matches) item =
    if text_eq found.item.path item.path
      && (same_item found item
          && text_eq (class_text found.item.classification) (class_text item.classification))
    then some found
    else match_for_input matches item

abbrev is_key : Option Text → Text → Bool
is_key none path = false
is_key (some key) path = text_eq key path

-- The reason of a match that is not ambiguous, by its relation.
abbrev match_reason : OverlapSafetyMatch → Text
match_reason found =
    if is_orphaned found.item.classification
    then codes "nested agent-state revalidation required"
    else elim found.relation [
      | OverlapSafetyRelation.agent_state_ancestor ↦
          reason_text OverlapSafetyReason.protected_ancestor
      | OverlapSafetyRelation.exact ↦ reason_text OverlapSafetyReason.protected_exact
      | _ ↦ reason_text OverlapSafetyReason.protected_descendant
    ]

-- The reason of a refusal, where it takes precedence.
abbrev refusal_reason : FileSystem → Option OverlapSafetyRefusal → Text → Option Text
refusal_reason fs none path = none
refusal_reason fs (some refusal) path = elim refusal.reason [
  | OverlapSafetyReason.command_overlap ↦ some (reason_text OverlapSafetyReason.command_overlap)
  | OverlapSafetyReason.ambiguous_identity ↦
      some (reason_text OverlapSafetyReason.ambiguous_identity)
  | OverlapSafetyReason.nested_revalidation ↦
      if is_key (target_path_key fs refusal.agent_state_path) path
      then some (reason_text OverlapSafetyReason.nested_revalidation)
      else none
  | _ ↦ none
]

abbrev or_match_reason : Option Text → OverlapSafetyMatch → Text
or_match_reason none found = match_reason found
or_match_reason (some reason) found = reason

-- cleanupLogicalL1Reason
unfoldable pub logical_safety_reason :
    FileSystem → Option OverlapSafetyRefusal → List OverlapSafetyMatch → DebrisInfo → Text → Text
logical_safety_reason fs refusal [] item path = []
logical_safety_reason fs refusal (found ∷ matches) item path =
    let rest = logical_safety_reason fs refusal matches item path in
    if is_ambiguous found.relation
    then (if text_eq found.item.path item.path && same_item found item
        then reason_text OverlapSafetyReason.ambiguous_identity
        else rest)
    else if not (is_key (target_path_key fs found.item.path) path && same_item found item)
    then rest
    else or_match_reason (refusal_reason fs refusal path) found

abbrev is_obligation_for : DebrisInfo → Text → AgentStateObligation → Bool
is_obligation_for item path obligation =
    text_eq obligation.tool item.tool && text_eq obligation.entry_path path

abbrev is_match_for : FileSystem → DebrisInfo → Text → OverlapSafetyMatch → Bool
is_match_for fs item path found =
    not (is_ambiguous found.relation)
    && (is_key (target_path_key fs found.item.path) path && same_item found item)

-- cleanupLogicalRevalidationRequired
unfoldable pub revalidation_required :
    FileSystem → OverlapSafetyComponent → DebrisInfo → Text → Bool
revalidation_required fs safety item path =
    (is_agent_state item.category && is_orphaned item.classification)
    && (any_of (is_obligation_for item path) safety.obligations
        || any_of (is_match_for fs item path) safety.matches)

abbrev is_ambiguous_match : Option OverlapSafetyMatch → Bool
is_ambiguous_match none = false
is_ambiguous_match (some found) = is_ambiguous found.relation

-- The relation of an input; `none` where it does not overlap.
unfoldable pub input_relation : OverlapSafetyComponent → DebrisInfo → Text → Option RowRelation
input_relation safety item path =
    if is_ambiguous_match (match_for_input safety.matches item)
    then some RowRelation.ambiguous
    else logical_relation safety.canonical_path path

abbrev pub input_row :
    FileSystem → OverlapSafetyComponent → LogicalInput → Text → RowRelation → LogicalRow
input_row fs safety input path relation = record {
  key = [];
  item = input.item;
  canonical_path = path;
  relation = relation;
  policy_reason = logical_policy_reason input;
  policy_decision = input.policy_decision;
  reason_codes = input.reason_codes;
  safety_reason = logical_safety_reason fs safety.refusal safety.matches input.item path;
  revalidation_required = revalidation_required fs safety input.item path;
  physical_bytes = pos 0;
  discovery_ordinal = 0;
}

-- The loop over the inputs.
unfoldable pub rows_of_inputs :
    FileSystem → OverlapSafetyComponent → List LogicalInput → List LogicalRow
rows_of_inputs fs safety [] = []
rows_of_inputs fs safety (input ∷ inputs) =
    let rest = rows_of_inputs fs safety inputs in
    elim (target_path_key fs input.item.path) [
      | none ↦ rest
      | some path ↦ elim (input_relation safety input.item path) [
        | none ↦ rest
        | some relation ↦ input_row fs safety input path relation ∷ rest
      ]
    ]

-- component.LogicalRows[0].PhysicalBytes = safety.Target.Size
abbrev pub with_size : ℤ → List LogicalRow → List LogicalRow
with_size size [] = []
with_size size (row ∷ rows) = record row { physical_bytes = size } ∷ rows

unfoldable pub cleanup_component :
    FileSystem → (ℕ → Text) → List LogicalInput → OverlapSafetyComponent → CleanupComponent
cleanup_component fs decimal inputs safety = record {
  key = safety.canonical_path;
  canonical_path = safety.canonical_path;
  owner = safety.target;
  rows = with_size safety.target.size (
      sort_rows decimal
        (ensure_owner_row (rows_of_inputs fs safety inputs) safety.target safety.canonical_path)
        safety.target);
  obligations = safety.obligations;
  refusal = safety.refusal;
}

abbrev component_before : CleanupComponent → CleanupComponent → Bool
component_before a b =
    if text_eq a.canonical_path b.canonical_path
    then text_lt (target_stable_key a.owner) (target_stable_key b.owner)
    else text_lt a.canonical_path b.canonical_path

-- BuildCleanupOverlapComponents
unfoldable pub build_cleanup_components :
    FileSystem
    → (ℕ → Text)
    → List OverlapSafetyComponent
    → List LogicalInput
    → List CleanupComponent
build_cleanup_components fs decimal plan inputs =
    sort component_before (map (cleanup_component fs decimal inputs) plan)
