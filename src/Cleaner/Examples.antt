-- ===== src/Cleaner/Examples.antt =====
-- Concrete runs of the theorems about internal/cleaner, and tests.
use aibris.Prelude.{
  pos, ◌-ℤ◌, ◌≡◌, refl, sym, ap, ◌∙◌, Text, codes, [], ◌∷◌, true, false, ◌&&◌, ◌||◌, not, text_eq,
  any_of, has_prefix, none, some, ◌⊎◌, inl, inr, In, All, Pairwise,
}
use aibris.FilePath.{is_abs, clean, rel, rel_elements, elements, stays_below}
use aibris.Types.{
  Category, WorktreeStatus, DebrisInfo, PruneOptions, blank_item, is_worktree, is_active, is_risky,
}
use aibris.Cleaner.Items.{
  FileSystem, Leaf, ResolvesAbsolute, trim_space, resolve_links, target_path_key, effective_kind,
  is_active_worktree_target,
}
use aibris.Cleaner.Targets.Merge.{IsAbsolute}
use aibris.Cleaner.Targets.{normalize_targets}
use aibris.Cleaner.Targets.Outer.{Apart, Covers}
use aibris.Cleaner.Targets.Normalize.{key_of, normalize_targets-Apart, normalize_targets-Covers}
use aibris.Cleaner.Owner.{
  active_owners, has_active_owner, filter_owned, apply_physical_owner_safety,
  apply_physical_owner_safety-guards, apply_physical_owner_safety-keeps,
}
use aibris.Cleaner.SafePath.{
  resolved_home, resolved_target, below_home, safe_home_rel, is_deletable_status, is_safe_target,
  BelowHome, is_safe_target-BelowHome,
}
use aibris.Cleaner.Eligibility.{
  Host, EligibilityReason, evaluate_eligibility, evaluate_strip_eligibility, matches_filters,
  go_build_cache_target, catalog_cache_target, cache_leaf_is_link, should_relax_cache_age,
  item_on_pressure_volume,
}
use aibris.Cleaner.Eligibility.Policy.{
  accepts, evaluate_eligibility-accepts, allowed, strippable, evaluate_eligibility-allowed,
  evaluate_strip_eligibility-allowed,
}

-- A file system without links, where every file is its own and exists.
abbrev pub plain : FileSystem
plain = record {
  eval_symlinks = λ p. some p;
  lstat = λ p. Leaf.other_leaf;
  readlink = λ p. none;
  stat = λ p. some 0;
}

pub plain-ResolvesAbsolute : ResolvesAbsolute plain
plain-ResolvesAbsolute p r abs e = let q : p ≡ r = cc in cc

abbrev pub tree : DebrisInfo
tree = record blank_item {
  tool = codes "codex";
  category = Category.worktree;
  path = codes "/a/b";
  status = WorktreeStatus.active;
}

abbrev inner_cache : DebrisInfo
inner_cache = record blank_item { category = Category.other_cache; path = codes "/a/b/c" }

abbrev idle_tree : DebrisInfo
idle_tree = record tree { status = WorktreeStatus.orphaned }

paths-IsAbsolute : All IsAbsolute (inner_cache ∷ tree ∷ [])
unfolding is_abs trim_space
paths-IsAbsolute = (refl, (refl, tt))

tree-key : target_path_key plain tree.path ≡ some (codes "/a/b")
unfolding target_path_key trim_space resolve_links clean text_eq
tree-key = refl

normalize_targets-Apart_example :
    Pairwise
      (λ a b. Apart (key_of plain a) (key_of plain b))
      (normalize_targets plain (inner_cache ∷ tree ∷ []))
normalize_targets-Apart_example =
    normalize_targets-Apart plain plain-ResolvesAbsolute (inner_cache ∷ tree ∷ []) paths-IsAbsolute

normalize_targets-Covers_example :
    (u : DebrisInfo) × In u (normalize_targets plain (inner_cache ∷ tree ∷ []))
    × Covers (key_of plain u) (key_of plain inner_cache)
normalize_targets-Covers_example =
    normalize_targets-Covers plain plain-ResolvesAbsolute (inner_cache ∷ tree ∷ []) paths-IsAbsolute
      inner_cache (inl refl)

-- The orphaned alias of an active worktree is left as an active one.
aliases-left : In tree (apply_physical_owner_safety plain (tree ∷ []) (idle_tree ∷ []) true).0
unfolding apply_physical_owner_safety filter_owned has_active_owner active_owners target_path_key
    trim_space resolve_links clean text_eq any_of
aliases-left = inl refl

apply_physical_owner_safety-guards_example : (true ≡ true) × (is_active tree.status ≡ true)
apply_physical_owner_safety-guards_example =
    apply_physical_owner_safety-guards plain (tree ∷ []) (idle_tree ∷ []) true tree tree
      (codes "/a/b") (inl refl) refl tree-key aliases-left refl tree-key

inner_cache-key : target_path_key plain inner_cache.path ≡ some (codes "/a/b/c")
unfolding target_path_key trim_space resolve_links clean text_eq
inner_cache-key = refl

inner_cache-free :
    (a : DebrisInfo) (key : Text)
    → In a (tree ∷ [])
    → is_active_worktree_target a ≡ true
    → target_path_key plain a.path ≡ some key
    → ¬ (target_path_key plain inner_cache.path ≡ some key)
inner_cache-free a key (inl q) act e k =
    let same : some (codes "/a/b") ≡ some key =
      sym tree-key ∙ ap (λ (t : DebrisInfo). target_path_key plain t.path) (sym q) ∙ e in
    let other : some (codes "/a/b/c") ≡ some key = sym inner_cache-key ∙ k in cc
inner_cache-free a key (inr i) act e k = absurd i

apply_physical_owner_safety-keeps_example :
    In inner_cache (apply_physical_owner_safety plain (tree ∷ []) (inner_cache ∷ []) false).0
apply_physical_owner_safety-keeps_example =
    apply_physical_owner_safety-keeps plain (tree ∷ []) (inner_cache ∷ []) false inner_cache
      (inl refl) inner_cache-free

-- A machine with one catalog cache, which is no link, on the volume "disk".
abbrev machine : Host
machine = record {
  stale_go_cache = λ p. false;
  go_cache_verification_failure = λ p. [];
  cache_target_paths = codes "/a/b/c" ∷ [];
  leaf_is_link = λ p. some false;
  path_device = λ p. some (codes "disk");
}

abbrev options : PruneOptions
options = record {
  age = pos 100;
  categories = [];
  tools = [];
  dry_run = false;
  interactive = false;
  risky = false;
  force = false;
  include_active_worktrees = false;
  agent_state_min_idle_age = pos 0;
  relax_cache_age = true;
  pressure_device = codes "disk";
}

evaluate_eligibility-allowed_example :
    (evaluate_eligibility machine inner_cache options (pos 50)).0
    ≡ allowed machine inner_cache options (pos 50)
evaluate_eligibility-allowed_example =
    evaluate_eligibility-allowed machine inner_cache options (pos 50)

-- The cache is younger than the age, and its volume is under pressure.
relaxed_test :
    evaluate_eligibility machine inner_cache options (pos 50)
    ≡ (true, EligibilityReason.volume_pressure)
unfolding evaluate_eligibility matches_filters go_build_cache_target text_eq cache_leaf_is_link
    effective_kind catalog_cache_target should_relax_cache_age item_on_pressure_volume clean any_of
    is_risky ◌-ℤ◌
relaxed_test = refl

abbrev strip_tree : DebrisInfo
strip_tree = record tree { strippable_bytes = pos 7; strippable_paths = codes "/a/b/x" ∷ [] }

evaluate_strip_eligibility-allowed_example :
    (let e = evaluate_eligibility machine strip_tree options (pos 50) in
      evaluate_strip_eligibility strip_tree e.0 e.1)
    ≡ (strippable machine strip_tree options (pos 50)
        && ((matches_filters strip_tree options
              && ((not (go_build_cache_target strip_tree)
                    || catalog_cache_target machine strip_tree)
                  && not (cache_leaf_is_link machine strip_tree)))
            && not (allowed machine strip_tree options (pos 50))))
evaluate_strip_eligibility-allowed_example =
    evaluate_strip_eligibility-allowed machine strip_tree options (pos 50)

cache-safe : is_safe_target machine plain none (codes "/a") inner_cache ≡ true
unfolding is_safe_target go_build_cache_target catalog_cache_target any_of text_eq clean
    safe_home_rel is_abs resolved_target resolved_home below_home has_prefix rel rel_elements
    elements stays_below
cache-safe = refl

is_safe_target-BelowHome_example :
    BelowHome plain (codes "/a") inner_cache.path
    × ((is_worktree inner_cache.category ≡ false) ⊎ (is_deletable_status inner_cache.status ≡ true))
is_safe_target-BelowHome_example =
    is_safe_target-BelowHome machine plain none (codes "/a") inner_cache cache-safe

evaluate_eligibility-accepts_example :
    (evaluate_eligibility machine inner_cache options (pos 50)).0
    ≡ accepts machine inner_cache options
        (pos 50)
        (evaluate_eligibility machine inner_cache options (pos 50)).1
evaluate_eligibility-accepts_example =
    evaluate_eligibility-accepts machine inner_cache options (pos 50)
