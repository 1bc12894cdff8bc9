-- ===== src/Cleaner/Overlap/Mutation/Report.antt =====
-- internal/cleaner/overlap_mutation_helpers.go: the report of a validation.
use aibris.Prelude.{
  Text, List, [], ◌∷◌, ◌++◌, map, Bool, true, false, ◌&&◌, ◌||◌, Option, none, some, inl, inr,
  if◌then◌else◌, is_empty, text_eq, text_lt, any_of, sort,
}
use aibris.Types.{Tool, EntryClass, blank_item}
use aibris.Cleaner.Items.{FileSystem}
use aibris.Cleaner.Overlap.{
  AgentStateObligation, OverlapSafetyMatch, OverlapSafetyReason, OverlapSafetyRefusal,
  OverlapSafetyRelation,
}
use aibris.Cleaner.Overlap.Identity.{IdentityResult, canonical_existing_path_identity}
use aibris.Cleaner.Overlap.Memo.{RefreshError}
use aibris.Cleaner.Overlap.Component.{obligation_key}
use aibris.Cleaner.Overlap.Plan.{PlanError}

-- Why a mutation is blocked.
pub data MutationError : Type 0 where
  cancelled component_unavailable target_changed identity_changed no_revalidator provider_changed
        no_refresh :
      MutationError
  refused : OverlapSafetyRefusal → MutationError
  plan_failed : PlanError → MutationError
  ambiguous_providers : Text → Text → MutationError
  revalidation_failed : Text → MutationError
  refresh_failed : RefreshError → MutationError
  not_orphaned : EntryClass → MutationError

-- AgentStateRevalidationState
pub data RevalidationState : Type 0 where
  passed blocked not_attempted : RevalidationState

-- AgentStateRevalidationOutcome; `none` is an empty reason.
pub record Outcome : Type 0 where
  pub tool : Tool
  pub entry_path : Text
  pub provider_id : Text
  pub state : RevalidationState
  pub classification : EntryClass
  pub reason : Option MutationError

-- OverlapSafetyValidation
pub record Validation : Type 0 where
  pub outcomes : List Outcome
  pub blocking_path : Text
  pub blocking_reason : Option MutationError

abbrev pub not_attempted_outcome : AgentStateObligation → Outcome
not_attempted_outcome obligation = record {
  tool = obligation.tool;
  entry_path = obligation.entry_path;
  provider_id = obligation.provider_id;
  state = RevalidationState.not_attempted;
  classification = EntryClass.unset;
  reason = none;
}

-- overlapValidationForObligations
unfoldable pub validation_for : List AgentStateObligation → Validation
validation_for obligations = record {
  outcomes = map not_attempted_outcome obligations;
  blocking_path = [];
  blocking_reason = none;
}

-- revalidationOutcomeKey
abbrev pub outcome_key : Outcome → Text
outcome_key outcome = outcome.tool ++ (0 ∷ outcome.entry_path)

-- The first outcome that passes the test gets a state.
unfoldable pub set_first :
    (Outcome → Bool)
    → RevalidationState
    → EntryClass
    → Option MutationError
    → List Outcome
    → List Outcome
set_first test state class reason [] = []
set_first test state class reason (outcome ∷ outcomes) =
    let rest = set_first test state class reason outcomes in
    if test outcome
    then record outcome { state = state; classification = class; reason = reason } ∷ outcomes
    else outcome ∷ rest

abbrev pub has_key : AgentStateObligation → Outcome → Bool
has_key obligation outcome = text_eq (outcome_key outcome) (obligation_key obligation)

-- passObligation
unfoldable pub pass_obligation : AgentStateObligation → EntryClass → Validation → Validation
pass_obligation obligation class report = record report {
  outcomes = set_first (has_key obligation) RevalidationState.passed class none report.outcomes;
}

-- The blocking path and reason.
abbrev pub blocked_at : Text → MutationError → Validation → Validation
blocked_at path error report = record report { blocking_path = path; blocking_reason = some error }

-- blockObligation
unfoldable pub block_obligation :
    AgentStateObligation → EntryClass → MutationError → Validation → Validation
block_obligation obligation class error report = record {
  outcomes =
      set_first (has_key obligation) RevalidationState.blocked class (some error) report.outcomes;
  blocking_path = obligation.entry_path;
  blocking_reason = some error;
}

abbrev pub canonical_or : Text → IdentityResult → Text
canonical_or path (inl identity) = identity.canonical
canonical_or path (inr error) = path

abbrev pub is_at : Tool → Text → Text → Outcome → Bool
is_at tool path canonical outcome =
    (is_empty tool || text_eq outcome.tool tool)
    && (text_eq outcome.entry_path path || text_eq outcome.entry_path canonical)

-- blockOutcomeAtPath
unfoldable pub block_outcome_at_path :
    FileSystem → Tool → Text → EntryClass → MutationError → Validation → Validation
block_outcome_at_path fs tool path class error report =
    if is_empty path then report else record report {
      outcomes =
          set_first (is_at tool path (canonical_or path (canonical_existing_path_identity fs path)))
            RevalidationState.blocked class (some error) report.outcomes;
    }

abbrev pub no_match : OverlapSafetyMatch
no_match = record { item = blank_item; relation = OverlapSafetyRelation.ambiguous }

-- overlapMatchForPath; without a match, the source's zero value, whose relation nothing reads.
unfoldable pub overlap_match_for_path : List OverlapSafetyMatch → Tool → Text → OverlapSafetyMatch
overlap_match_for_path [] tool path = no_match
overlap_match_for_path (found ∷ matches) tool path =
    if text_eq found.item.path path && (is_empty tool || text_eq found.item.tool tool)
    then found
    else overlap_match_for_path matches tool path

abbrev outcome_before : Outcome → Outcome → Bool
outcome_before a b = text_lt (outcome_key a) (outcome_key b)

abbrev blocked_outcome : OverlapSafetyMatch → Text → MutationError → Outcome
blocked_outcome found entry_path error = record {
  tool = found.item.tool;
  entry_path = entry_path;
  provider_id = [];
  state = RevalidationState.blocked;
  classification = found.item.classification;
  reason = some error;
}

abbrev is_outcome_of : OverlapSafetyMatch → Text → Outcome → Bool
is_outcome_of found entry_path outcome =
    text_eq outcome.tool found.item.tool && text_eq outcome.entry_path entry_path

-- ensureBlockedOutcome
unfoldable pub ensure_blocked_outcome :
    FileSystem → OverlapSafetyMatch → MutationError → Validation → Validation
ensure_blocked_outcome fs found error report =
    let entry_path =
      canonical_or found.item.path (canonical_existing_path_identity fs found.item.path) in
    if is_empty found.item.path
    then report
    else if any_of (is_outcome_of found entry_path) report.outcomes
    then report
    else record report {
      outcomes =
          sort outcome_before (report.outcomes ++ (blocked_outcome found entry_path error ∷ []));
    }

-- overlapRefusalBlockingPath
unfoldable pub refusal_blocking_path : OverlapSafetyRefusal → Text
refusal_blocking_path refusal =
    if is_empty refusal.agent_state_path then refusal.target_path else refusal.agent_state_path

abbrev pub is_nested_revalidation : OverlapSafetyReason → Bool
is_nested_revalidation OverlapSafetyReason.nested_revalidation = true
is_nested_revalidation _ = false

-- What the barrier records of the refusal of a refreshed component.
unfoldable pub block_refused :
    FileSystem → List OverlapSafetyMatch → OverlapSafetyRefusal → Validation → Validation
block_refused fs matches refusal report =
    let error = MutationError.refused refusal in
    let found = overlap_match_for_path matches refusal.agent_state_tool refusal.agent_state_path in
    let blocked =
      block_outcome_at_path fs refusal.agent_state_tool refusal.agent_state_path
        found.item.classification error (blocked_at (refusal_blocking_path refusal) error report) in
    if is_nested_revalidation refusal.reason
    then ensure_blocked_outcome fs found error blocked
    else blocked
