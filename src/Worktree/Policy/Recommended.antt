-- ===== src/Worktree/Policy/Recommended.antt =====
-- internal/worktree/policy.go, policy_helpers.go: which units a plan recommends for deletion.
use aibris.Prelude.{
  ◌-ℤ◌, lt_ℤ, ◌≡◌, ◌≢◌, refl, Text, List, [], ◌∷◌, Bool, true, false, none, ◌↔◌, is_empty,
  any_of-false, All, arith,
}
use aibris.Cleaner.Items.{FileSystem}
use aibris.Cleaner.Eligibility.{older_than}
use aibris.Worktree.{Uniqueness, Member, CleanupUnit, CleanupPolicy, ReasonCode, is_recommended}
use aibris.Worktree.Locks.{
  contains_path, member_unavailable, member_dirty, member_unreferenced, marked_unavailable,
  marked_dirty, marked_unreferenced, git_unavailable, recently_active, activity_missing,
  activity_lock_reason_codes, hard_lock_reason_codes, code_if,
}
use aibris.Worktree.Policy.{
  is_not_merged, is_unsettled, demotion_loop, uniqueness_demotion, classify_eligible_cleanup_unit,
  classify_cleanup_unit, needs_uniqueness_probe, decide,
}

-- A member that Git showed to be clean, recoverable and merged.
abbrev pub MemberSafe : Member → Type 0
MemberSafe m =
    (m.evidence_available ≡ true)
    × (m.git_evidence_available ≡ true)
    × (m.dirty ≡ false)
    × (m.recoverable ≡ true)
    × (m.default_branch_uniqueness ≡ Uniqueness.merged)

abbrev pub UnitSafe : FileSystem → CleanupPolicy → CleanupUnit → Type 0
UnitSafe fs policy unit =
    (contains_path fs unit.target_path policy.current_working_directory ≡ false)
    × (unit.hard_locked ≡ false)
    × (is_empty unit.members ≡ false)
    × All MemberSafe unit.members
    × (lt_ℤ (policy.now -ℤ policy.recent_activity_window) unit.last_activity ≡ false)
    × (older_than unit.last_activity policy.now policy.min_idle_age ≡ true)
    × (lt_ℤ unit.size policy.min_size ≡ false)

code_if-empty :
    (b : Bool) (code : ReasonCode) (rest : List ReasonCode)
    → is_empty (code_if b code rest) ≡ true
    → (b ≡ false) × (is_empty rest ≡ true)
code_if-empty true code rest h = cc
code_if-empty false code rest h = (refl, h)

demotion_loop-flag : (ms : List Member) → demotion_loop ms true ≢ none
unfolding demotion_loop
demotion_loop-flag [] h = cc
demotion_loop-flag (m ∷ ms) h = ground (arith, demotion_loop-flag ms)

settled :
    (u : Uniqueness) → is_not_merged u ≡ false → is_unsettled u ≡ false → u ≡ Uniqueness.merged
settled Uniqueness.merged h k = refl
settled Uniqueness.not_merged h k = cc
settled _ h k = cc

demotion_loop-merged :
    (ms : List Member)
    → demotion_loop ms false ≡ none
    → All (λ m. m.default_branch_uniqueness ≡ Uniqueness.merged) ms
unfolding demotion_loop
demotion_loop-merged [] h = tt
demotion_loop-merged (m ∷ ms) h =
    let a : is_not_merged m.default_branch_uniqueness ≡ false = ground arith in
    let b : is_unsettled m.default_branch_uniqueness ≡ false =
      ground (arith, demotion_loop-flag ms) in
    (settled m.default_branch_uniqueness a b, demotion_loop-merged ms (ground arith))

member-safe :
    (m : Member)
    → member_unavailable m ≡ false
    → member_dirty m ≡ false
    → member_unreferenced m ≡ false
    → m.default_branch_uniqueness ≡ Uniqueness.merged
    → MemberSafe m
unfolding member_unavailable member_dirty member_unreferenced
member-safe m u d r q = (ground arith, ground arith, ground arith, ground arith, q)

members-safe :
    (ms : List Member)
    → All (λ m. member_unavailable m ≡ false) ms
    → All (λ m. member_dirty m ≡ false) ms
    → All (λ m. member_unreferenced m ≡ false) ms
    → All (λ m. m.default_branch_uniqueness ≡ Uniqueness.merged) ms
    → All MemberSafe ms
members-safe [] u d r q = tt
members-safe (m ∷ ms) u d r q = (member-safe m u.0 d.0 r.0 q.0, members-safe ms u.1 d.1 r.1 q.1)

module _ (fs : FileSystem) (unit : CleanupUnit) (policy : CleanupPolicy) where
  -- No code is present: no flag is.
  hard_lock_reason_codes-empty :
      is_empty (hard_lock_reason_codes fs unit policy) ≡ true
      → (contains_path fs unit.target_path policy.current_working_directory ≡ false)
        × (marked_dirty unit ≡ false)
        × (git_unavailable unit ≡ false)
        × (marked_unreferenced unit ≡ false)
        × (recently_active unit policy ≡ false)
        × (activity_missing unit ≡ false)
  unfolding hard_lock_reason_codes activity_lock_reason_codes
  hard_lock_reason_codes-empty h =
      (ground arith, ground arith, ground arith, ground arith, ground arith, ground arith)

  activity-old :
      recently_active unit policy ≡ false
      → activity_missing unit ≡ false
      → lt_ℤ (policy.now -ℤ policy.recent_activity_window) unit.last_activity ≡ false
  unfolding recently_active activity_missing
  activity-old h k = ground arith

  unlocked-safe :
      is_empty (hard_lock_reason_codes fs unit policy) ≡ true
      → older_than unit.last_activity policy.now policy.min_idle_age ≡ true
      → lt_ℤ unit.size policy.min_size ≡ false
      → uniqueness_demotion unit ≡ none
      → UnitSafe fs policy unit
  unfolding uniqueness_demotion git_unavailable marked_dirty marked_unavailable marked_unreferenced
  unlocked-safe h idle big merged =
      let (outside, clean, available, referenced, old, active) = hard_lock_reason_codes-empty h in
      (
        outside,
        ground arith,
        ground arith,
        members-safe unit.members (any_of-false member_unavailable unit.members (ground arith))
            (any_of-false member_dirty unit.members (ground arith))
            (any_of-false member_unreferenced unit.members (ground arith))
            (demotion_loop-merged unit.members merged),
        activity-old old active,
        idle,
        big,
      )

  -- The probe's test is the path of the switch to its last arm.
  pub needs_uniqueness_probe-classify :
      (retained : List Text)
      → needs_uniqueness_probe fs unit policy retained ≡ true
      → decide fs policy retained unit ≡ classify_eligible_cleanup_unit unit
  unfolding needs_uniqueness_probe classify_cleanup_unit
  needs_uniqueness_probe-classify retained h = ground arith

  needs_uniqueness_probe-facts :
      (retained : List Text)
      → needs_uniqueness_probe fs unit policy retained ≡ true
      → (is_empty (hard_lock_reason_codes fs unit policy) ≡ true)
        × (older_than unit.last_activity policy.now policy.min_idle_age ≡ true)
        × (lt_ℤ unit.size policy.min_size ≡ false)
  unfolding needs_uniqueness_probe
  needs_uniqueness_probe-facts retained h = (ground arith, ground arith, ground arith)

  classify_eligible-recommended :
      is_recommended (classify_eligible_cleanup_unit unit).class ≡ true
      → uniqueness_demotion unit ≡ none
  unfolding classify_eligible_cleanup_unit
  classify_eligible-recommended h = ground arith

  recommended-needs_uniqueness_probe :
      (retained : List Text)
      → is_recommended (decide fs policy retained unit).class ≡ true
      → needs_uniqueness_probe fs unit policy retained ≡ true
  unfolding needs_uniqueness_probe classify_cleanup_unit
  recommended-needs_uniqueness_probe retained h = ground arith

  -- The class of a unit is "recommended" exactly if the uniqueness probe's test admits the unit and
  -- no member demotes it.
  pub decide-recommended :
      (retained : List Text)
      → (is_recommended (decide fs policy retained unit).class ≡ true) ↔ (
          (needs_uniqueness_probe fs unit policy retained ≡ true)
          × (uniqueness_demotion unit ≡ none))
  unfolding classify_eligible_cleanup_unit
  decide-recommended retained = (
    λ h. (
      recommended-needs_uniqueness_probe retained h,
      classify_eligible-recommended (
          ground (
            arith,
            needs_uniqueness_probe-classify retained
                (recommended-needs_uniqueness_probe retained h),
          )),
    ),
    λ h. ground (arith, needs_uniqueness_probe-classify retained h.0, h.1),
  )

  pub decide-safe :
      (retained : List Text)
      → is_recommended (decide fs policy retained unit).class ≡ true
      → UnitSafe fs policy unit
  decide-safe retained h =
      let (probe, merged) = (decide-recommended retained).0 h in
      let (unlocked, idle, big) = needs_uniqueness_probe-facts retained probe in
      unlocked-safe unlocked idle big merged
