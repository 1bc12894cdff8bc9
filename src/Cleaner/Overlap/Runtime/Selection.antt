-- ===== src/Cleaner/Overlap/Runtime/Selection.antt =====
-- internal/cleaner/overlap_safety_runtime.go: the selection, and the last checks on its targets.
use aibris.Prelude.{
  ℕ, Text, codes, List, [], ◌∷◌, ◌++◌, map, Bool, ◌&&◌, not, Option, none, some, inl, inr,
  if◌then◌else◌, text_eq, text_lt, is_empty, sort, Result, ok, err,
}
use aibris.Types.{DebrisInfo, category_text, is_orphaned, is_worktree, is_active}
use aibris.Cleaner.Items.{FileSystem, target_path_key, target_stable_key}
use aibris.Cleaner.Targets.{normalize_targets}
use aibris.Cleaner.Owner.{physical_owner_item_key}
use aibris.Cleaner.Overlap.{
  OverlapSafetyMatch, OverlapSafetyComponent, OverlapSafetyEvidence, allowed_targets,
}
use aibris.Cleaner.Overlap.Entries.{Context}
use aibris.Cleaner.Overlap.Component.{Lookup}
use aibris.Cleaner.Overlap.Plan.{PlanError, PlanResult, build_overlap_safety_plan}
use aibris.Cleaner.Overlap.Memo.{RefreshMemo, Call, Answer, get}
use aibris.Cleaner.Overlap.Rows.{LogicalInput}
use aibris.Cleaner.Overlap.Runtime.{
  CleanupComponent, OverlapAuditReason, audit_reason_for_overlap_safety, build_cleanup_components,
}
use aibris.Cleaner.Overlap.Mutation.{World, Blocked, block, validate_before_mutation}
use aibris.Cleaner.Overlap.Mutation.Report.{MutationError, Validation, validation_for}

abbrev pub Protections : Type 0
Protections = List (Text × OverlapAuditReason)

-- protections[key] = reason
unfoldable pub set_protection : Text → OverlapAuditReason → Protections → Protections
set_protection key reason [] = (key, reason) ∷ []
set_protection key reason ((k, r) ∷ protections) =
    let rest = set_protection key reason protections in
    if text_eq k key then (k, reason) ∷ protections else (k, r) ∷ rest

unfoldable pub protect_matches :
    OverlapAuditReason → List OverlapSafetyMatch → Protections → Protections
protect_matches reason [] protections = protections
protect_matches reason (found ∷ matches) protections = protect_matches reason matches (
    if is_orphaned found.item.classification
    then set_protection (physical_owner_item_key found.item) reason protections
    else protections)

abbrev protect_component : OverlapSafetyComponent → Protections → Protections
protect_component component protections = elim component.refusal [
  | none ↦ protections
  | some refusal ↦
      protect_matches (audit_reason_for_overlap_safety refusal.reason) component.matches (
        set_protection (physical_owner_item_key component.target)
          (audit_reason_for_overlap_safety refusal.reason) protections)
]

-- overlapSafetyAuditProtections
unfoldable pub overlap_safety_audit_protections :
    List OverlapSafetyComponent → Protections → Protections
overlap_safety_audit_protections [] protections = protections
overlap_safety_audit_protections (component ∷ components) protections =
    overlap_safety_audit_protections components (protect_component component protections)

abbrev target_input : DebrisInfo → LogicalInput
target_input target = record {
  item = target;
  policy_reason = codes "selected cleanup target";
  policy_decision = [];
  reason_codes = [];
}

abbrev evidence_input : DebrisInfo → LogicalInput
evidence_input item = record {
  item = item;
  policy_reason = item.reason;
  policy_decision = [];
  reason_codes = [];
}

-- defaultCleanupOverlapLogicalInputs
unfoldable pub default_logical_inputs : List DebrisInfo → List DebrisInfo → List LogicalInput
default_logical_inputs targets evidence = map target_input targets ++ map evidence_input evidence

abbrev key_or_empty : Option Text → Text
key_or_empty none = []
key_or_empty (some key) = key

abbrev pub target_before : FileSystem → DebrisInfo → DebrisInfo → Bool
target_before fs a b =
    let left = key_or_empty (target_path_key fs a.path) in
    let right = key_or_empty (target_path_key fs b.path) in
    if text_eq left right
    then text_lt (target_stable_key a) (target_stable_key b)
    else text_lt left right

-- CleanupOverlapSafetySelection
pub record Selection : Type 0 where
  pub plan : List OverlapSafetyComponent
  pub components : List CleanupComponent
  pub targets : List DebrisInfo
  pub protections : Protections

abbrev pub selection_of :
    FileSystem → (ℕ → Text) → List LogicalInput → PlanResult → Result PlanError Selection
selection_of fs decimal inputs (inr error) = err error
selection_of fs decimal inputs (inl plan) = ok (record {
  plan = plan;
  components = build_cleanup_components fs decimal plan inputs;
  targets = allowed_targets plan;
  protections = overlap_safety_audit_protections plan [];
})

-- The targets as ApplyCleanupOverlapSafetyWithRows hands them to the plan.
unfoldable pub prepared_targets : FileSystem → List DebrisInfo → List DebrisInfo
prepared_targets fs targets = sort (target_before fs) (normalize_targets fs targets)

-- ApplyCleanupOverlapSafetyWithRows
unfoldable pub apply_overlap_safety :
    {R : Type 0}
    → FileSystem
    → Context
    → (ℕ → Text)
    → OverlapSafetyEvidence
    → Lookup R
    → List DebrisInfo
    → List LogicalInput
    → Result PlanError Selection
apply_overlap_safety fs ctx decimal initial lookup targets inputs =
    let prepared = prepared_targets fs targets in
    selection_of fs decimal
      (if is_empty inputs then default_logical_inputs prepared initial.items else inputs)
      (build_overlap_safety_plan fs ctx initial prepared lookup)

abbrev pub is_component_of : DebrisInfo → OverlapSafetyComponent → Bool
is_component_of target component =
    text_eq component.target.path target.path
    && (text_eq (category_text component.target.category) (category_text target.category)
        && (text_eq component.target.tool target.tool && text_eq component.target.id target.id))

-- OverlapSafetyPlan.ComponentForTarget
unfoldable pub component_for_target :
    List OverlapSafetyComponent → DebrisInfo → Option OverlapSafetyComponent
component_for_target [] target = none
component_for_target (component ∷ components) target =
    if is_component_of target component
    then some component
    else component_for_target components target

abbrev allowed_only : Option OverlapSafetyComponent → Option OverlapSafetyComponent
allowed_only none = none
allowed_only (some component) = elim component.refusal [
  | none ↦ some component
  | some refusal ↦ none
]

-- MutationSafetyForTarget; `none` is its error.
unfoldable pub mutation_safety_for_target : Selection → DebrisInfo → Option OverlapSafetyComponent
mutation_safety_for_target selection target =
    allowed_only (component_for_target selection.plan target)

abbrev validated :
    {R : Type 0} → World R → Lookup R → OverlapSafetyComponent → Answer → Result Blocked Validation
validated world lookup component (err e) = err (
    block component.target.path (validation_for component.obligations)
      (MutationError.refresh_failed e))
validated world lookup component (ok refreshed) =
    validate_before_mutation world lookup component refreshed

-- RefreshedEvidence; without a memo every call refreshes.
abbrev pub refreshed_evidence : Option RefreshMemo → Call → Option RefreshMemo × Answer
refreshed_evidence none call = (none, call.refresh)
refreshed_evidence (some memo) call = (some (get memo call).0, (get memo call).1)

-- CleanupMutationSafety.Validate, with the memo before and after it; `can_refresh` tells that the
-- runtime has a refresh function.
unfoldable pub validate_mutation :
    {R : Type 0}
    → World R
    → Lookup R
    → OverlapSafetyComponent
    → Bool
    → Option RefreshMemo
    → Call
    → Option RefreshMemo × Result Blocked Validation
validate_mutation world lookup component can_refresh memo call =
    if not can_refresh
    then (
      memo,
      err (
          block component.target.path (validation_for component.obligations)
            MutationError.no_refresh),
    )
    else (
      (refreshed_evidence memo call).0,
      validated world lookup component (refreshed_evidence memo call).1,
    )

-- GitSafety, with the text of its reasons.
pub record GitSafety : Type 0 where
  pub is_protected : Bool
  pub protection_reasons : List Text

unfoldable pub join_comma : List Text → Text
join_comma [] = []
join_comma (reason ∷ []) = reason
join_comma (reason ∷ next ∷ reasons) = reason ++ codes ", " ++ join_comma (next ∷ reasons)

abbrev git_reason : List Text → Text
git_reason reasons = if is_empty reasons then codes "git status unavailable" else join_comma reasons

-- FilterGitUnsafeActiveWorktreeTargetsWithInspector: the targets and the protections, as the list of
-- what is set.
unfoldable pub filter_git_unsafe :
    (Text → GitSafety) → List DebrisInfo → List DebrisInfo × List (Text × Text)
filter_git_unsafe inspector [] = ([], [])
filter_git_unsafe inspector (target ∷ targets) =
    let rest = filter_git_unsafe inspector targets in
    let safety = inspector target.path in
    if not (is_worktree target.category && is_active target.status)
    then (target ∷ rest.0, rest.1)
    else if not safety.is_protected
    then (target ∷ rest.0, rest.1)
    else (rest.0, (physical_owner_item_key target, git_reason safety.protection_reasons) ∷ rest.1)
