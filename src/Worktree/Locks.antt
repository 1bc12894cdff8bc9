-- ===== src/Worktree/Locks.antt =====
-- internal/worktree/policy_helpers.go: the hard locks of a cleanup unit.
use aibris.Prelude.{
  ◌-ℤ◌, lt_ℤ, Text, codes, List, [], ◌∷◌, Bool, true, false, ◌&&◌, ◌||◌, not, Option, some,
  if◌then◌else◌, text_eq, is_empty, any_of,
}
use aibris.FilePath.{path_contains}
use aibris.Cleaner.Items.{FileSystem, target_path_key}
use aibris.Worktree.{GitReasonCode, Member, CleanupUnit, CleanupPolicy, ReasonCode}

abbrev pub not_registered : Text
not_registered = codes "not-registered"

-- cleanupUnitHasRegisteredActivitySource
unfoldable pub has_registered_activity_source : CleanupUnit → Bool
has_registered_activity_source unit = not (text_eq unit.registered_activity_source not_registered)

abbrev pub inside : Option Text → Option Text → Bool
inside (some target) (some path) = text_eq target path || path_contains target path
inside _ _ = false

-- cleanupUnitContainsPath
unfoldable pub contains_path : FileSystem → Text → Text → Bool
contains_path fs target path =
    if is_empty target || is_empty path
    then false
    else inside (target_path_key fs target) (target_path_key fs path)

abbrev pub is_unavailable : GitReasonCode → Bool
is_unavailable GitReasonCode.evidence_unavailable = true
is_unavailable _ = false

abbrev pub is_dirty : GitReasonCode → Bool
is_dirty GitReasonCode.dirty_worktree = true
is_dirty _ = false

abbrev pub is_unreferenced : GitReasonCode → Bool
is_unreferenced GitReasonCode.detached_head_unreferenced = true
is_unreferenced _ = false

-- The three tests of the loop over the members.
unfoldable pub member_unavailable : Member → Bool
member_unavailable m =
    not m.evidence_available
    || (is_empty m.repository_id || (not m.git_evidence_available || is_unavailable m.reason.code))

unfoldable pub member_dirty : Member → Bool
member_dirty m = m.dirty || is_dirty m.reason.code

unfoldable pub member_unreferenced : Member → Bool
member_unreferenced m =
    m.git_evidence_available && (not m.recoverable || is_unreferenced m.reason.code)

-- What the two loops, over the members and over the unit's reasons, leave in `present`.
unfoldable pub marked_unavailable : CleanupUnit → Bool
marked_unavailable unit =
    is_empty unit.members
    || (any_of member_unavailable unit.members
        || any_of (λ r. is_unavailable r.code) unit.hard_lock_reasons)

unfoldable pub marked_dirty : CleanupUnit → Bool
marked_dirty unit =
    any_of member_dirty unit.members || any_of (λ r. is_dirty r.code) unit.hard_lock_reasons

unfoldable pub marked_unreferenced : CleanupUnit → Bool
marked_unreferenced unit =
    any_of member_unreferenced unit.members
    || any_of (λ r. is_unreferenced r.code) unit.hard_lock_reasons

-- A locked unit with no reason of its own counts as one without evidence.
unfoldable pub git_unavailable : CleanupUnit → Bool
git_unavailable unit =
    marked_unavailable unit
    || (unit.hard_locked && (not (marked_dirty unit) && not (marked_unreferenced unit)))

unfoldable pub recently_active : CleanupUnit → CleanupPolicy → Bool
recently_active unit policy =
    unit.activity_available && lt_ℤ (policy.now -ℤ policy.recent_activity_window) unit.last_activity

unfoldable pub activity_missing : CleanupUnit → Bool
activity_missing unit =
    not unit.activity_available
    || (has_registered_activity_source unit && not unit.registered_activity_available)

-- The code, where its test passes.
abbrev pub code_if : Bool → ReasonCode → List ReasonCode → List ReasonCode
code_if b code rest = if b then code ∷ rest else rest

-- cleanupUnitActivityLockReasonCodes
unfoldable pub activity_lock_reason_codes : CleanupUnit → CleanupPolicy → List ReasonCode
unfolding recently_active activity_missing
activity_lock_reason_codes unit policy =
    code_if (recently_active unit policy) ReasonCode.recent_activity
      (code_if (activity_missing unit) ReasonCode.activity_unavailable [])

-- cleanupUnitHardLockReasonCodes: the codes present, in the order of its table, which puts the two
-- activity codes last and in the order that they are computed in.
unfoldable pub hard_lock_reason_codes : FileSystem → CleanupUnit → CleanupPolicy → List ReasonCode
hard_lock_reason_codes fs unit policy =
    code_if (contains_path fs unit.target_path policy.current_working_directory)
      ReasonCode.current_working_directory
      (code_if (marked_dirty unit) ReasonCode.dirty_worktree (
        code_if (git_unavailable unit) ReasonCode.git_evidence_unavailable (
          code_if (marked_unreferenced unit) ReasonCode.detached_unreferenced
            (activity_lock_reason_codes unit policy))))
