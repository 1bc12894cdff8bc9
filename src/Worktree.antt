-- ===== src/Worktree.antt =====
-- internal/worktree: cleanup units and their Git members (units.go), the reasons of a Git inspection
-- (git_evidence.go), and the policy that classes them. A record has the fields that the policy and
-- the guided review read; the text of a failed inspection and the refs of a member are left out.
pub mod Examples
pub mod Guided
pub mod Locks
pub mod Policy
pub mod Retention
pub mod Repositories
pub mod Survivors
pub mod Display
use aibris.Prelude.{ℤ, Text, codes, List, Bool, true, false}

-- An open string type: its constants, and any other string.
pub data GitReasonCode : Type 0 where
  evidence_unavailable dirty_worktree attached_branch detached_head_reachable
        detached_head_unreferenced :
      GitReasonCode
  other : Text → GitReasonCode

pub record GitEvidenceReason : Type 0 where
  pub code : GitReasonCode
  pub description : Text

-- DefaultBranchUniqueness; `unprobed` is the empty string.
pub data Uniqueness : Type 0 where
  merged not_merged unknown unprobed : Uniqueness
  other : Text → Uniqueness

pub data UpstreamState : Type 0 where
  none_configured gone other_state : UpstreamState

-- GitWorktreeMember
pub record Member : Type 0 where
  pub worktree_path : Text
  pub repository_id : Text
  pub branch_ref : Text
  pub upstream_state : UpstreamState
  pub upstream_ref : Text
  pub dirty : Bool
  pub recoverable : Bool
  pub hard_locked : Bool
  pub reason : GitEvidenceReason
  pub evidence_available : Bool
  pub git_evidence_available : Bool
  pub default_branch_uniqueness : Uniqueness

-- WorktreeCleanupUnit
pub record CleanupUnit : Type 0 where
  pub target_path : Text
  pub size : ℤ
  pub source : Text
  pub members : List Member
  pub last_activity : ℤ
  pub activity_available : Bool
  pub registered_activity_available : Bool
  pub registered_activity_source : Text
  pub hard_locked : Bool
  pub hard_lock_reasons : List GitEvidenceReason

-- CleanupPolicy
pub record CleanupPolicy : Type 0 where
  pub now : ℤ
  pub current_working_directory : Text
  pub recent_activity_window : ℤ
  pub keep_per_repository : ℤ
  pub min_idle_age : ℤ
  pub min_size : ℤ

-- DecisionClass
pub data DecisionClass : Type 0 where
  locked reviewable recommended : DecisionClass

abbrev pub is_locked : DecisionClass → Bool
is_locked locked = true
is_locked _ = false

abbrev pub is_recommended : DecisionClass → Bool
is_recommended recommended = true
is_recommended _ = false

-- DecisionReasonCode, with the two Git codes and the protection that are converted to it.
pub data ReasonCode : Type 0 where
  current_working_directory dirty_worktree git_evidence_unavailable detached_unreferenced
        activity_unavailable recent_activity activity_not_registered repository_retention
        minimum_idle_age minimum_size eligible unique_commits merge_evidence_unknown attached_branch
        detached_head_reachable protect_path :
      ReasonCode

pub record DecisionReason : Type 0 where
  pub code : ReasonCode
  pub description : Text
  pub worktree_path : Text

-- WorktreeCleanupDecision
pub record Decision : Type 0 where
  pub subject : CleanupUnit
  pub class : DecisionClass
  pub reasons : List DecisionReason
