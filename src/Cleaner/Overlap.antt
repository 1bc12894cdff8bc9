-- ===== src/Cleaner/Overlap.antt =====
-- internal/cleaner/overlap.go and overlap_plan.go: the data of the overlap plan. An error is the
-- case that it stands for, in place of its text.
pub mod Examples
pub mod Identity
pub mod Entries
pub mod Component
pub mod Plan
pub mod Evidence
pub mod Gathered
pub mod Obligations
pub mod Apart
pub mod Safety
pub mod Complete
pub mod Memo
pub mod Rows
pub mod Runtime
pub mod Mutation
use aibris.Prelude.{
  ℕ, ◌≡◌, Text, List, [], ◌∷◌, Bool, true, false, Option, none, some, if◌then◌else◌,
}
use aibris.Types.{Tool, EntryClass, DebrisInfo}

pub data OverlapSafetyReason : Type 0 where
  protected_ancestor protected_descendant protected_exact ambiguous_identity command_overlap
        nested_revalidation :
      OverlapSafetyReason

pub data OverlapSafetyRelation : Type 0 where
  agent_state_ancestor agent_state_descendant exact ambiguous : OverlapSafetyRelation

-- canonicalPathIdentity; its info is a file's identity, or nil.
pub record PathIdentity : Type 0 where
  pub raw : Text
  pub canonical : Text
  pub info : Option ℕ

-- Why canonicalExistingPathIdentity fails.
pub data IdentityError : Type 0 where
  not_absolute : IdentityError
  unresolved unreadable : Text → IdentityError

-- The detail of a refusal.
pub data RefusalDetail : Type 0 where
  bad_identity : IdentityError → RefusalDetail
  unresolvable_agent_state unresolvable_agent_state_with_error command_semantics : RefusalDetail
  classified : EntryClass → RefusalDetail
  no_revalidator : RefusalDetail

pub record OverlapSafetyMatch : Type 0 where
  pub item : DebrisInfo
  pub relation : OverlapSafetyRelation

pub record OverlapSafetyRefusal : Type 0 where
  pub reason : OverlapSafetyReason
  pub target_path : Text
  pub agent_state_tool : Tool
  pub agent_state_path : Text
  pub detail : RefusalDetail

pub record AgentStateObligation : Type 0 where
  pub tool : Tool
  pub entry_path : Text
  pub provider_id : Text
  pub path_identity : PathIdentity

pub record OverlapSafetyComponent : Type 0 where
  pub target : DebrisInfo
  pub canonical_path : Text
  pub matches : List OverlapSafetyMatch
  pub obligations : List AgentStateObligation
  pub refusal : Option OverlapSafetyRefusal
  pub target_identity : PathIdentity

abbrev pub is_allowed : Option OverlapSafetyRefusal → Bool
is_allowed none = true
is_allowed (some refusal) = false

-- OverlapSafetyPlan.AllowedTargets, of the plan's components.
unfoldable pub allowed_targets : List OverlapSafetyComponent → List DebrisInfo
allowed_targets [] = []
allowed_targets (component ∷ components) =
    let rest = allowed_targets components in
    if is_allowed component.refusal then component.target ∷ rest else rest

-- The complete inventory of a scan; provider errors are counted.
pub record OverlapSafetyEvidence : Type 0 where
  pub items : List DebrisInfo
  pub provider_errors : ℕ
  pub complete : Bool
