-- ===== src/Cleaner/Eligibility/Policy.antt =====
-- What EvaluateEligibility decides, said without its order of tests.
use aibris.Prelude.{
  ℤ, pos, lt_ℤ, le_ℤ, is_empty, ◌≡◌, refl, Bool, true, false, ◌&&◌, ◌||◌, not, if◌then◌else◌, arith,
}
use aibris.Types.{
  WorktreeStatus, EntryClass, DebrisInfo, PruneOptions, is_risky, is_worktree, is_agent_state,
  is_active, is_orphaned,
}
use aibris.Cleaner.Eligibility.{
  EligibilityReason, Host, go_build_cache_target, catalog_cache_target, matches_filters, is_cache,
  cache_leaf_is_link, should_relax_cache_age, older_than, agent_state_eligibility, age_eligibility,
  worktree_eligibility, evaluate_eligibility, evaluate_strip_eligibility,
}

abbrev is_orphaned_tree : WorktreeStatus → Bool
is_orphaned_tree WorktreeStatus.orphaned = true
is_orphaned_tree _ = false

-- The policy as one condition.
abbrev pub agent_state_allowed : DebrisInfo → PruneOptions → ℤ → Bool
agent_state_allowed item opts observed_at =
    is_orphaned item.classification
    && (not (lt_ℤ (pos 0) opts.agent_state_min_idle_age)
        || older_than item.mod_time observed_at opts.agent_state_min_idle_age)

abbrev pub worktree_allowed : DebrisInfo → PruneOptions → Bool
worktree_allowed item opts =
    not (is_worktree item.category)
    || (is_orphaned_tree item.status || (is_active item.status && opts.include_active_worktrees))

abbrev pub debris_allowed : Host → DebrisInfo → PruneOptions → ℤ → Bool
debris_allowed host item opts observed_at =
    (opts.risky || not (is_risky item.category))
    && (worktree_allowed item opts
        && (older_than item.mod_time observed_at opts.age || should_relax_cache_age host item opts))

abbrev pub allowed : Host → DebrisInfo → PruneOptions → ℤ → Bool
allowed host item opts observed_at =
    matches_filters item opts
    && ((not (go_build_cache_target item) || catalog_cache_target host item)
        && (not (cache_leaf_is_link host item)
            && (if is_agent_state item.category
                then agent_state_allowed item opts observed_at
                else debris_allowed host item opts observed_at)))

module _ (host : Host) (item : DebrisInfo) (opts : PruneOptions) (observed_at : ℤ) where
  agent_state_eligibility-allowed :
      (class : EntryClass)
      → item.classification ≡ class
      → (agent_state_eligibility class item opts observed_at).0
        ≡ agent_state_allowed item opts observed_at
  unfolding agent_state_eligibility
  agent_state_eligibility-allowed EntryClass.orphaned e = ground arith
  agent_state_eligibility-allowed EntryClass.live e = ground arith
  agent_state_eligibility-allowed _ e = ground arith

  age_eligibility-allowed :
      (age_eligibility host item opts observed_at).0
      ≡ (older_than item.mod_time observed_at opts.age || should_relax_cache_age host item opts)
  unfolding age_eligibility
  age_eligibility-allowed = ground arith

  worktree_eligibility-allowed :
      (status : WorktreeStatus)
      → (worktree_eligibility status host item opts observed_at).0 ≡ (
          (is_orphaned_tree status || (is_active status && opts.include_active_worktrees))
          && (older_than item.mod_time observed_at opts.age
              || should_relax_cache_age host item opts))
  unfolding worktree_eligibility
  worktree_eligibility-allowed WorktreeStatus.active = ground (arith, age_eligibility-allowed)
  worktree_eligibility-allowed WorktreeStatus.orphaned = ground (arith, age_eligibility-allowed)
  worktree_eligibility-allowed _ = ground arith

  -- An item is eligible exactly if it passes the filters, a Go cache is verified, its leaf is no
  -- link, and: agent state is orphaned and idle for the floor, where one is set; other debris is
  -- not risky or risk is accepted, a worktree is orphaned, or active and included, and the item
  -- is older than the age or a cache that pressure relaxes.
  pub evaluate_eligibility-allowed :
      (evaluate_eligibility host item opts observed_at).0 ≡ allowed host item opts observed_at
  unfolding evaluate_eligibility
  evaluate_eligibility-allowed = ground (
    arith,
    agent_state_eligibility-allowed item.classification refl,
    age_eligibility-allowed,
    worktree_eligibility-allowed item.status,
  )

  -- An active worktree with something to strip.
  abbrev pub strippable : Bool
  strippable =
      (is_worktree item.category && is_active item.status)
      && not (le_ℤ item.strippable_bytes (pos 0) || is_empty item.strippable_paths)

  worktree-not_cache :
      is_worktree item.category ≡ true → should_relax_cache_age host item opts ≡ false
  unfolding should_relax_cache_age is_cache
  worktree-not_cache h = ground arith

  worktree-not_risky : is_worktree item.category ≡ true → is_risky item.category ≡ false
  unfolding is_risky
  worktree-not_risky h = ground arith

  -- An item is offered for stripping exactly if it is an active worktree with bytes and paths to
  -- strip that passes the filters, the test of Go caches and the test of linked leaves, and is not
  -- eligible for deletion.
  pub evaluate_strip_eligibility-allowed :
      (let e = evaluate_eligibility host item opts observed_at in
        evaluate_strip_eligibility item e.0 e.1)
      ≡ (strippable
          && ((matches_filters item opts
                && ((not (go_build_cache_target item) || catalog_cache_target host item)
                    && not (cache_leaf_is_link host item)))
              && not (allowed host item opts observed_at)))
  unfolding evaluate_eligibility evaluate_strip_eligibility worktree_eligibility age_eligibility
      agent_state_eligibility
  evaluate_strip_eligibility-allowed = ground (arith, worktree-not_cache, worktree-not_risky)

  -- The reasons of a positive verdict.
  abbrev pub accepts : EligibilityReason → Bool
  accepts EligibilityReason.eligible = true
  accepts EligibilityReason.volume_pressure = true
  accepts _ = false

  -- The verdict and its reason agree: an item is eligible exactly if the reason is "eligible" or the
  -- pressure on its volume.
  pub evaluate_eligibility-accepts :
      (evaluate_eligibility host item opts observed_at).0
      ≡ accepts (evaluate_eligibility host item opts observed_at).1
  unfolding evaluate_eligibility worktree_eligibility age_eligibility agent_state_eligibility
  evaluate_eligibility-accepts = ground arith
