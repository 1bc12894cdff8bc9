-- ===== src/Cleaner/Eligibility.antt =====
-- internal/cleaner/eligibility.go: the cleanup policy of one item, with the catalog tests of
-- internal/cleaner/cleaner_helpers.go that it calls.
pub mod Policy
use aibris.Prelude.{
  ℤ, pos, ◌-ℤ◌, lt_ℤ, le_ℤ, ◌≡◌, refl, Text, codes, List, [], ◌∷◌, ◌++◌, Bool, true, false, ◌&&◌,
  ◌||◌, not, Option, none, some, if◌then◌else◌, text_eq, is_empty, any_of, arith, length, ◌==◌,
}
use aibris.FilePath.{clean}
use aibris.Types.{
  Tool, tool_build_cache, Category, WorktreeStatus, EntryClass, DebrisInfo, PruneOptions,
  category_text, is_risky, is_worktree, is_agent_state, is_active, is_orphaned, is_remove_path,
}
use aibris.Cleaner.Items.{effective_kind}

-- What the machine and the cache catalog answer: whether a Go cache path is stale and why it could
-- not be verified, the catalog's live paths, whether a leaf is a link (`none`: os.Lstat fails), and
-- the device of a path (`none`: the lookup fails).
pub record Host : Type 0 where
  pub stale_go_cache : Text → Bool
  pub go_cache_verification_failure : Text → Text
  pub cache_target_paths : List Text
  pub leaf_is_link : Text → Option Bool
  pub path_device : Text → Option Text

pub data EligibilityReason : Type 0 where
  filtered risky active_worktree worktree_review age agent_state_live agent_state_undetermined
        agent_state_min_idle_age volume_pressure eligible cache_leaf_symlink :
      EligibilityReason
  go_cache_unverified : Text → EligibilityReason

-- goBuildCacheTarget
unfoldable pub go_build_cache_target : DebrisInfo → Bool
go_build_cache_target item =
    text_eq item.tool tool_build_cache && text_eq item.id (codes "go-build")

-- cacheAgeMayRelax, and the guard of catalogCacheTarget
unfoldable pub is_cache : Category → Bool
is_cache Category.build_cache = true
is_cache Category.other_cache = true
is_cache _ = false

-- catalogCacheTarget
unfoldable pub catalog_cache_target : Host → DebrisInfo → Bool
unfolding is_cache
catalog_cache_target host item =
    if not (is_cache item.category)
    then false
    else if go_build_cache_target item && host.stale_go_cache item.path
    then false
    else any_of (λ target. text_eq target (clean item.path)) host.cache_target_paths

-- containsCategory and containsTool
unfoldable pub contains_category : List Category → Category → Bool
contains_category categories cat =
    any_of (λ c. text_eq (category_text c) (category_text cat)) categories

unfoldable pub contains_tool : List Tool → Tool → Bool
contains_tool tools tool = any_of (λ t. text_eq t tool) tools

unfoldable pub matches_filters : DebrisInfo → PruneOptions → Bool
matches_filters item opts =
    (is_empty opts.categories || contains_category opts.categories item.category)
    && (is_empty opts.tools || contains_tool opts.tools item.tool)

-- The leaf of a catalog cache that is removed by path is a link.
unfoldable pub cache_leaf_is_link : Host → DebrisInfo → Bool
cache_leaf_is_link host item =
    is_remove_path (effective_kind item)
    && (is_empty item.cleanup_command
        && (catalog_cache_target host item
            && elim (host.leaf_is_link item.path) [ none ↦ false | some link ↦ link ]))

-- itemOnPressureVolume
unfoldable pub item_on_pressure_volume : Host → Text → Text → Bool
item_on_pressure_volume host path device =
    if is_empty device
    then true
    else elim (host.path_device path) [ none ↦ false | some got ↦ text_eq got device ]

-- ShouldRelaxCacheAge
unfoldable pub should_relax_cache_age : Host → DebrisInfo → PruneOptions → Bool
should_relax_cache_age host item opts =
    opts.relax_cache_age
    && (is_cache item.category && item_on_pressure_volume host item.path opts.pressure_device)

-- t.Before(observedAt.Add(-d))
abbrev pub older_than : ℤ → ℤ → ℤ → Bool
older_than t observed_at d = lt_ℤ t (observed_at -ℤ d)

-- The branch for agent state.
unfoldable pub agent_state_eligibility :
    EntryClass → DebrisInfo → PruneOptions → ℤ → Bool × EligibilityReason
agent_state_eligibility EntryClass.orphaned item opts observed_at =
    if lt_ℤ (pos 0) opts.agent_state_min_idle_age
      && not (older_than item.mod_time observed_at opts.agent_state_min_idle_age)
    then (false, EligibilityReason.agent_state_min_idle_age)
    else (true, EligibilityReason.eligible)
agent_state_eligibility EntryClass.live item opts observed_at =
    (false, EligibilityReason.agent_state_live)
agent_state_eligibility _ item opts observed_at =
    (false, EligibilityReason.agent_state_undetermined)

-- The age test at the end.
unfoldable pub age_eligibility : Host → DebrisInfo → PruneOptions → ℤ → Bool × EligibilityReason
age_eligibility host item opts observed_at =
    if not (older_than item.mod_time observed_at opts.age)
    then (if should_relax_cache_age host item opts
        then (true, EligibilityReason.volume_pressure)
        else (false, EligibilityReason.age))
    else (true, EligibilityReason.eligible)

-- The switch on a worktree's status, before the age test.
unfoldable pub worktree_eligibility :
    WorktreeStatus → Host → DebrisInfo → PruneOptions → ℤ → Bool × EligibilityReason
worktree_eligibility WorktreeStatus.active host item opts observed_at =
    if not opts.include_active_worktrees
    then (false, EligibilityReason.active_worktree)
    else age_eligibility host item opts observed_at
worktree_eligibility WorktreeStatus.orphaned host item opts observed_at =
    age_eligibility host item opts observed_at
worktree_eligibility _ host item opts observed_at = (false, EligibilityReason.worktree_review)

-- EvaluateEligibility
unfoldable pub evaluate_eligibility :
    Host → DebrisInfo → PruneOptions → ℤ → Bool × EligibilityReason
unfolding age_eligibility worktree_eligibility agent_state_eligibility
evaluate_eligibility host item opts observed_at =
    if not (matches_filters item opts)
    then (false, EligibilityReason.filtered)
    else if go_build_cache_target item && not (catalog_cache_target host item)
    then (
      false,
      EligibilityReason.go_cache_unverified (host.go_cache_verification_failure item.path),
    )
    else if cache_leaf_is_link host item
    then (false, EligibilityReason.cache_leaf_symlink)
    else if is_agent_state item.category
    then agent_state_eligibility item.classification item opts observed_at
    else if not opts.risky && is_risky item.category
    then (false, EligibilityReason.risky)
    else if is_worktree item.category
    then worktree_eligibility item.status host item opts observed_at
    else age_eligibility host item opts observed_at

-- isDefaultUvCacheClean
unfoldable pub is_default_uv_cache_clean : List Text → Bool
is_default_uv_cache_clean (a ∷ b ∷ c ∷ []) =
    text_eq a (codes "uv") && (text_eq b (codes "cache") && text_eq c (codes "clean"))
is_default_uv_cache_clean _ = false

-- uvCacheCleanCommand
unfoldable pub uv_cache_clean_command : Bool → List Text
uv_cache_clean_command force =
    if force
    then codes "uv" ∷ codes "cache" ∷ codes "clean" ∷ codes "--force" ∷ []
    else codes "uv" ∷ codes "cache" ∷ codes "clean" ∷ []

-- applyPressureCleanupCommand
unfoldable pub apply_pressure_cleanup_command : Host → DebrisInfo → PruneOptions → DebrisInfo
apply_pressure_cleanup_command host item opts =
    if not (should_relax_cache_age host item opts)
      || not (is_default_uv_cache_clean item.cleanup_command)
    then item
    else record item { cleanup_command = uv_cache_clean_command true }

-- EvaluateStripEligibility
unfoldable pub evaluate_strip_eligibility : DebrisInfo → Bool → EligibilityReason → Bool
evaluate_strip_eligibility item delete_eligible delete_reason =
    if delete_eligible
    then false
    else if not (is_worktree item.category) || not (is_active item.status)
    then false
    else if le_ℤ item.strippable_bytes (pos 0) || is_empty item.strippable_paths
    then false
    else elim delete_reason [
      | EligibilityReason.active_worktree ↦ true
      | EligibilityReason.age ↦ true
      | _ ↦ false
    ]
