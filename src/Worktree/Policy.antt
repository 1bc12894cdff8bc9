-- ===== src/Worktree/Policy.antt =====
-- internal/worktree/policy.go and units_uniqueness.go: the plan of a worktree cleanup. The probe of
-- a member's default branch runs Git and is a parameter.
pub mod Plan
pub mod Recommended
use aibris.Prelude.{
  ℕ, zero, suc, ℤ, pos, ◌-ℤ◌, lt_ℤ, le_ℤ, pos_part, neg_part, Text, codes, List, [], ◌∷◌, ◌++◌, map,
  Bool, true, false, ◌&&◌, ◌||◌, not, Option, none, some, if◌then◌else◌, text_eq, text_lt, is_empty,
  any_of, ◌==◌, sort,
}
use aibris.FilePath.{clean}
use aibris.Cleaner.Items.{FileSystem}
use aibris.Cleaner.Eligibility.{older_than}
use aibris.Worktree.{
  GitReasonCode, Uniqueness, Member, CleanupUnit, CleanupPolicy, DecisionClass, ReasonCode,
  DecisionReason, Decision,
}
use aibris.Worktree.Locks.{hard_lock_reason_codes, has_registered_activity_source}
use aibris.Worktree.Retention.{cleanup_unit_stable_key, retained_cleanup_units}

-- The defaults of a policy; durations in nanoseconds.
abbrev pub default_recent_activity_window : ℤ
default_recent_activity_window = pos 21600000000000

abbrev pub default_keep_per_repository : ℤ
default_keep_per_repository = pos 3

abbrev pub default_min_idle_age : ℤ
default_min_idle_age = pos 259200000000000

abbrev pub default_cleanup_min_size : ℤ
default_cleanup_min_size = pos 268435456

-- DefaultCleanupPolicy
abbrev pub default_cleanup_policy : ℤ → CleanupPolicy
default_cleanup_policy now = record {
  now = now;
  current_working_directory = [];
  recent_activity_window = default_recent_activity_window;
  keep_per_repository = default_keep_per_repository;
  min_idle_age = default_min_idle_age;
  min_size = default_cleanup_min_size;
}

abbrev pub positive_or : ℤ → ℤ → ℤ
positive_or n default = if le_ℤ n (pos 0) then default else n

-- FillCleanupPolicy
unfoldable pub fill_cleanup_policy : CleanupPolicy → CleanupPolicy
fill_cleanup_policy policy = record policy {
  recent_activity_window = positive_or policy.recent_activity_window default_recent_activity_window;
  keep_per_repository = positive_or policy.keep_per_repository default_keep_per_repository;
  min_idle_age = positive_or policy.min_idle_age default_min_idle_age;
  min_size = positive_or policy.min_size default_cleanup_min_size;
}

-- decisionReasonCopy and DecisionReasonDescription
unfoldable pub decision_reason_description : ReasonCode → Text
decision_reason_description ReasonCode.current_working_directory =
    codes "current working directory is inside cleanup unit"
decision_reason_description ReasonCode.git_evidence_unavailable = codes "Git evidence unavailable"
decision_reason_description ReasonCode.dirty_worktree = codes "dirty or untracked files"
decision_reason_description ReasonCode.detached_unreferenced =
    codes "detached HEAD not reachable from named ref"
decision_reason_description ReasonCode.activity_unavailable = codes "activity evidence unavailable"
decision_reason_description ReasonCode.recent_activity =
    codes "activity within recent safety window"
decision_reason_description ReasonCode.activity_not_registered =
    codes "no registered activity source for this tool"
decision_reason_description ReasonCode.repository_retention =
    codes "retained among the most recent units for a repository"
decision_reason_description ReasonCode.minimum_idle_age = codes "younger than minimum idle age"
decision_reason_description ReasonCode.minimum_size = codes "below minimum recommendation size"
decision_reason_description ReasonCode.eligible = codes "eligible for cleanup recommendation"
decision_reason_description ReasonCode.unique_commits =
    codes "HEAD has unique commits not in the local default branch"
decision_reason_description ReasonCode.merge_evidence_unknown =
    codes "default-branch uniqueness could not be determined"
decision_reason_description _ = codes "cleanup policy decision"

-- decisionReasons
unfoldable pub decision_reasons : List ReasonCode → List DecisionReason
decision_reasons reasons =
    map
      (λ code. record {
        code = code;
        description = decision_reason_description code;
        worktree_path = [];
      })
      reasons

abbrev pub description_or : Text → Text → Text
description_or description default = if is_empty description then default else description

abbrev pub recoverability_of : GitReasonCode → Member → List DecisionReason → List DecisionReason
recoverability_of GitReasonCode.attached_branch m rest =
    record {
      code = ReasonCode.attached_branch;
      description =
          description_or m.reason.description (codes "local branch retained: " ++ m.branch_ref);
      worktree_path = m.worktree_path;
    }
    ∷ rest
recoverability_of GitReasonCode.detached_head_reachable m rest =
    record {
      code = ReasonCode.detached_head_reachable;
      description =
          description_or m.reason.description (codes "detached HEAD reachable from named ref");
      worktree_path = m.worktree_path;
    }
    ∷ rest
recoverability_of _ m rest = rest

unfoldable pub recoverability_loop : List Member → List DecisionReason
recoverability_loop [] = []
recoverability_loop (m ∷ ms) = recoverability_of m.reason.code m (recoverability_loop ms)

abbrev pub members_by_path : List Member → List Member
members_by_path = sort (λ a b. text_lt a.worktree_path b.worktree_path)

-- cleanupUnitRecoverabilityReasons
unfoldable pub recoverability_reasons : CleanupUnit → List DecisionReason
recoverability_reasons unit = recoverability_loop (members_by_path unit.members)

abbrev pub is_not_merged : Uniqueness → Bool
is_not_merged Uniqueness.not_merged = true
is_not_merged _ = false

-- The default arm of the switch: neither merged nor not.
abbrev pub is_unsettled : Uniqueness → Bool
is_unsettled Uniqueness.not_merged = false
is_unsettled Uniqueness.merged = false
is_unsettled _ = true

-- uniquenessDemotion; the flag is `sawUnknown`.
unfoldable pub demotion_loop : List Member → Bool → Option ReasonCode
demotion_loop [] saw_unknown = if saw_unknown then some ReasonCode.merge_evidence_unknown else none
demotion_loop (m ∷ ms) saw_unknown =
    let rest = demotion_loop ms (saw_unknown || is_unsettled m.default_branch_uniqueness) in
    if is_not_merged m.default_branch_uniqueness then some ReasonCode.unique_commits else rest

unfoldable pub uniqueness_demotion : CleanupUnit → Option ReasonCode
unfolding demotion_loop
uniqueness_demotion unit = demotion_loop unit.members false

abbrev pub reviewable_decision : CleanupUnit → ReasonCode → Decision
reviewable_decision unit reason = record {
  subject = unit;
  class = DecisionClass.reviewable;
  reasons = decision_reasons (reason ∷ []);
}

-- classifyEligibleCleanupUnit
unfoldable pub classify_eligible_cleanup_unit : CleanupUnit → Decision
classify_eligible_cleanup_unit unit = elim (uniqueness_demotion unit) [
  | some reason ↦ reviewable_decision unit reason
  | none ↦ record {
    subject = unit;
    class = DecisionClass.recommended;
    reasons = decision_reasons (ReasonCode.eligible ∷ []) ++ recoverability_reasons unit;
  }
]

abbrev pub is_retained : List Text → CleanupUnit → Bool
is_retained retained unit = any_of (text_eq (cleanup_unit_stable_key unit)) retained

-- classifyCleanupUnit
unfoldable pub classify_cleanup_unit :
    CleanupUnit → CleanupPolicy → List ReasonCode → List Text → Decision
classify_cleanup_unit unit policy locks retained =
    if not (is_empty locks)
    then record { subject = unit; class = DecisionClass.locked; reasons = decision_reasons locks }
    else if is_retained retained unit
    then reviewable_decision unit ReasonCode.repository_retention
    else if not (older_than unit.last_activity policy.now policy.min_idle_age)
    then reviewable_decision unit ReasonCode.minimum_idle_age
    else if lt_ℤ unit.size policy.min_size
    then reviewable_decision unit ReasonCode.minimum_size
    else if not (has_registered_activity_source unit)
    then record {
      subject = unit;
      class = DecisionClass.reviewable;
      reasons =
          decision_reasons (ReasonCode.activity_not_registered ∷ []) ++ recoverability_reasons unit;
    }
    else classify_eligible_cleanup_unit unit

abbrev pub decide : FileSystem → CleanupPolicy → List Text → CleanupUnit → Decision
decide fs policy retained unit =
    classify_cleanup_unit unit policy (hard_lock_reason_codes fs unit policy) retained

-- PlanWorktreeCleanup
unfoldable pub plan_worktree_cleanup : FileSystem → List CleanupUnit → CleanupPolicy → List Decision
plan_worktree_cleanup fs units policy =
    let filled = fill_cleanup_policy policy in
    let retained = retained_cleanup_units units filled.keep_per_repository in
    sort (λ a b. text_lt (cleanup_unit_stable_key a.subject) (cleanup_unit_stable_key b.subject))
      (map (decide fs filled retained) units)

-- cleanupUnitNeedsUniquenessProbe
unfoldable pub needs_uniqueness_probe : FileSystem → CleanupUnit → CleanupPolicy → List Text → Bool
needs_uniqueness_probe fs unit policy retained =
    if not (is_empty (hard_lock_reason_codes fs unit policy))
    then false
    else if is_retained retained unit
    then false
    else if not (older_than unit.last_activity policy.now policy.min_idle_age)
    then false
    else if lt_ℤ unit.size policy.min_size
    then false
    else has_registered_activity_source unit

-- inspectCleanupUnitUniqueness
unfoldable pub inspect_member : (Text → Uniqueness) → Member → Member
inspect_member probe m = if m.hard_locked then m else elim m.default_branch_uniqueness [
  | Uniqueness.unprobed ↦ record m { default_branch_uniqueness = probe m.worktree_path }
  | _ ↦ m
]

unfoldable pub inspect_unit : (Text → Uniqueness) → CleanupUnit → CleanupUnit
inspect_unit probe unit = record unit { members = map (inspect_member probe) unit.members }

-- InspectRecommendedCandidateUniqueness
unfoldable pub inspect_candidates :
    FileSystem → (Text → Uniqueness) → List CleanupUnit → CleanupPolicy → List CleanupUnit
inspect_candidates fs probe units policy =
    let filled = fill_cleanup_policy policy in
    let retained = retained_cleanup_units units filled.keep_per_repository in
    map
      (λ unit.
        if needs_uniqueness_probe fs unit filled retained then inspect_unit probe unit else unit)
      units
