-- ===== src/Worktree/Policy/Plan.antt =====
-- internal/worktree/policy.go: the plan as a whole.
use aibris.Prelude.{
  ℤ, pos, le_ℤ, ◌≡◌, refl, subst, sym, Text, List, map, true, In, All, All-In, All-intro, All-map,
  All-sort, In-map, In-sort, arith, if_either, if◌then◌else◌, false, [], ◌∷◌, is_empty, any_of,
  In-any_of, text_eq, text_eq_refl, lt_ℤ,
}
use aibris.Cleaner.Items.{FileSystem}
use aibris.Worktree.Locks.{hard_lock_reason_codes, has_registered_activity_source}
use aibris.Cleaner.Eligibility.{older_than}
use aibris.Worktree.{ReasonCode, Uniqueness, CleanupUnit, CleanupPolicy, Decision, is_recommended}
use aibris.Worktree.Policy.{
  needs_uniqueness_probe, inspect_unit, inspect_candidates, fill_cleanup_policy, positive_or,
  default_recent_activity_window, default_keep_per_repository, default_min_idle_age,
  default_cleanup_min_size, classify_cleanup_unit, classify_eligible_cleanup_unit, decide,
  plan_worktree_cleanup,
}
use aibris.Worktree.Retention.{cleanup_unit_stable_key, retained_cleanup_units}
use aibris.Worktree.Policy.Recommended.{UnitSafe, decide-safe}

positive_or-positive :
    (n default : ℤ) → le_ℤ default (pos 0) ≡ false → le_ℤ (positive_or n default) (pos 0) ≡ false
positive_or-positive n default h =
    if_either (λ k. le_ℤ k (pos 0) ≡ false) (le_ℤ n (pos 0)) default n (λ e. h) (λ e. e)

positive_or-twice :
    (n default : ℤ)
    → le_ℤ default (pos 0) ≡ false
    → positive_or (positive_or n default) default ≡ positive_or n default
positive_or-twice n default h = rw (positive_or-positive n default h) refl

-- A filled policy has only positive thresholds, and filling it again changes nothing.
pub fill_cleanup_policy-positive :
    (policy : CleanupPolicy)
    → let filled = fill_cleanup_policy policy in
      (le_ℤ filled.recent_activity_window (pos 0) ≡ false)
      × (le_ℤ filled.keep_per_repository (pos 0) ≡ false)
      × (le_ℤ filled.min_idle_age (pos 0) ≡ false)
      × (le_ℤ filled.min_size (pos 0) ≡ false)
      × (fill_cleanup_policy filled ≡ filled)
unfolding fill_cleanup_policy
fill_cleanup_policy-positive policy =
    let w = policy.recent_activity_window in
    let k = policy.keep_per_repository in
    let a = policy.min_idle_age in
    let s = policy.min_size in
    (
      positive_or-positive w default_recent_activity_window refl,
      positive_or-positive k default_keep_per_repository refl,
      positive_or-positive a default_min_idle_age refl,
      positive_or-positive s default_cleanup_min_size refl,
      λ i. record policy {
        recent_activity_window = positive_or-twice w default_recent_activity_window refl i;
        keep_per_repository = positive_or-twice k default_keep_per_repository refl i;
        min_idle_age = positive_or-twice a default_min_idle_age refl i;
        min_size = positive_or-twice s default_cleanup_min_size refl i;
      },
    )

pub decide-subject :
    (fs : FileSystem) (policy : CleanupPolicy) (retained : List Text) (unit : CleanupUnit)
    → (decide fs policy retained unit).subject ≡ unit
unfolding classify_cleanup_unit classify_eligible_cleanup_unit
decide-subject fs policy retained unit = ground arith

module _ (fs : FileSystem) (units : List CleanupUnit) (policy : CleanupPolicy) where
  -- What a recommendation vouches for.
  abbrev pub Sound : Decision → Type 0
  Sound d =
      is_recommended d.class ≡ true
      → In d.subject units × UnitSafe fs (fill_cleanup_policy policy) d.subject

  plan-Sound : All Sound (plan_worktree_cleanup fs units policy)
  unfolding plan_worktree_cleanup
  plan-Sound =
      let filled = fill_cleanup_policy policy in
      let retained = retained_cleanup_units units filled.keep_per_repository in
      All-sort _ Sound (map (decide fs filled retained) units) (
        All-map (decide fs filled retained) Sound units (
          All-intro (λ unit. Sound (decide fs filled retained unit)) units
            (λ unit i h.
              let e = decide-subject fs filled retained unit in
              (
                subst (λ u. In u units) (sym e) i,
                subst (UnitSafe fs filled) (sym e) (decide-safe fs unit filled retained h),
              ))))

  -- A decision of the plan that recommends deletion is about one of the units, and that unit does
  -- not contain the working directory, is not locked, has members, each of them with complete Git
  -- evidence, clean, recoverable and merged, was not active in the recent window, has been idle for
  -- the minimum age and has the minimum size, by the filled policy.
  pub plan_worktree_cleanup-safe :
      (d : Decision)
      → In d (plan_worktree_cleanup fs units policy)
      → is_recommended d.class ≡ true
      → In d.subject units × UnitSafe fs (fill_cleanup_policy policy) d.subject
  plan_worktree_cleanup-safe d i =
      All-In Sound (plan_worktree_cleanup fs units policy) plan-Sound d i

  -- Every unit has a decision in the plan.
  pub plan_worktree_cleanup-covers :
      (unit : CleanupUnit)
      → In unit units
      → (d : Decision) × In d (plan_worktree_cleanup fs units policy) × (d.subject ≡ unit)
  unfolding plan_worktree_cleanup
  plan_worktree_cleanup-covers unit i =
      let filled = fill_cleanup_policy policy in
      let retained = retained_cleanup_units units filled.keep_per_repository in
      (
        decide fs filled retained unit,
        In-sort _ (map (decide fs filled retained) units) (decide fs filled retained unit)
            (In-map (decide fs filled retained) units unit i),
        decide-subject fs filled retained unit,
      )

  not_empty : (code : ReasonCode) (codes : List ReasonCode) → In code codes → is_empty codes ≡ false
  not_empty code [] i = absurd i
  not_empty code (c ∷ codes) i = refl

  -- What keeps a unit from a recommendation before its commits are looked at.
  pub data HeldBack (unit : CleanupUnit) : Type 0 where
    locked :
        (code : ReasonCode)
        → In code (hard_lock_reason_codes fs unit (fill_cleanup_policy policy))
        → HeldBack unit
    retained :
        In
          (cleanup_unit_stable_key unit)
          (retained_cleanup_units units (fill_cleanup_policy policy).keep_per_repository)
        → HeldBack unit
    too_young :
        older_than unit.last_activity policy.now (fill_cleanup_policy policy).min_idle_age ≡ false
        → HeldBack unit
    too_small : lt_ℤ unit.size (fill_cleanup_policy policy).min_size ≡ true → HeldBack unit
    unregistered : has_registered_activity_source unit ≡ false → HeldBack unit

  HeldBack-no_probe :
      (unit : CleanupUnit)
      → HeldBack unit
      → needs_uniqueness_probe fs unit
          (fill_cleanup_policy policy)
          (retained_cleanup_units units (fill_cleanup_policy policy).keep_per_repository)
        ≡ false
  unfolding needs_uniqueness_probe fill_cleanup_policy
  HeldBack-no_probe unit (locked code i) =
      let some_lock =
        not_empty code (hard_lock_reason_codes fs unit (fill_cleanup_policy policy)) i in
      ground arith
  HeldBack-no_probe unit (retained i) =
      let key = cleanup_unit_stable_key unit in
      let kept = retained_cleanup_units units (fill_cleanup_policy policy).keep_per_repository in
      let among : any_of (text_eq key) kept ≡ true =
        In-any_of (text_eq key) kept key i (text_eq_refl key) in
      ground arith
  HeldBack-no_probe unit (too_young e) = ground arith
  HeldBack-no_probe unit (too_small e) = ground arith
  HeldBack-no_probe unit (unregistered e) = ground arith

  -- The uniqueness probe leaves every unit as it is that has a hard lock, whose key is among the
  -- retained ones, that has not been idle for the minimum age, that is smaller than the minimum
  -- size, or that has no registered source of activity, by the filled policy.
  pub inspect_candidates-keeps :
      (probe : Text → Uniqueness) (unit : CleanupUnit)
      → In unit units
      → HeldBack unit
      → In unit (inspect_candidates fs probe units policy)
  unfolding inspect_candidates
  inspect_candidates-keeps probe unit i h =
      let filled = fill_cleanup_policy policy in
      let retained = retained_cleanup_units units filled.keep_per_repository in
      let inspect : CleanupUnit → CleanupUnit =
        λ u. if needs_uniqueness_probe fs u filled retained then inspect_unit probe u else u in
      let same : inspect unit ≡ unit = rw (HeldBack-no_probe unit h) refl in
      subst (λ u. In u (map inspect units)) same (In-map inspect units unit i)
