-- ===== src/Cleaner/Targets.antt =====
-- internal/cleaner/targets.go: NormalizeTargets, PhysicalInventory and ApplyPhysicalOwnerSafety. A
-- map keyed by canonical paths is the list of its entries; each entry holds its own key.
pub mod Merge
pub mod Outer
pub mod Normalize
use aibris.Prelude.{
  ℕ, ◌+◌, ℤ, pos, lt_ℤ, ◌≡◌, Text, List, [], ◌∷◌, ◌++◌, Bool, true, false, ◌&&◌, ◌||◌, not, Option,
  none, some, ltb, ◌==◌, if◌then◌else◌, text_eq, text_lt, any_of, sort, map, keep_if,
}
use aibris.FilePath.{path_contains, target_path_depth}
use aibris.Types.{DebrisInfo, WorktreeStatus, is_worktree}
use aibris.Cleaner.Items.{
  FileSystem, target_path_key, target_raw_path_key, is_active_worktree_target,
  prefer_target_for_canonical,
}

-- normalizedTarget
pub record NormalizedTarget : Type 0 where
  pub item : DebrisInfo
  pub path : Text
  pub depth : ℕ
  pub index : ℕ
  pub raw_sizes : List (Text × ℤ)

-- rawSizes[key], which is 0 for a missing key.
unfoldable pub raw_size : Text → List (Text × ℤ) → ℤ
raw_size key [] = pos 0
raw_size key ((k, v) ∷ sizes) = if text_eq k key then v else raw_size key sizes

unfoldable pub set_raw_size : Text → ℤ → List (Text × ℤ) → List (Text × ℤ)
set_raw_size key v [] = (key, v) ∷ []
set_raw_size key v ((k, w) ∷ sizes) =
    if text_eq k key then (k, v) ∷ sizes else (k, w) ∷ set_raw_size key v sizes

-- The sizes after the candidate's size has been taken into account.
unfoldable pub raised_sizes : NormalizedTarget → NormalizedTarget → List (Text × ℤ)
unfolding raw_size set_raw_size
raised_sizes existing candidate =
    let key = target_raw_path_key candidate.item.path in
    if lt_ℤ (raw_size key existing.raw_sizes) candidate.item.size
    then set_raw_size key candidate.item.size existing.raw_sizes
    else existing.raw_sizes

-- The row that supplies the mutation path of a key.
unfoldable pub chosen_item : FileSystem → NormalizedTarget → NormalizedTarget → DebrisInfo
chosen_item fs existing candidate =
    if prefer_target_for_canonical fs candidate.item existing.item candidate.path
    then candidate.item
    else existing.item

-- A mixed active and orphaned owner keeps the active status.
unfoldable pub with_active_status : Bool → DebrisInfo → DebrisInfo
with_active_status has_active item =
    if has_active && is_worktree item.category
    then record item { status = WorktreeStatus.active }
    else item

-- The loop's body for a path that is there already.
unfoldable pub merge_target : FileSystem → NormalizedTarget → NormalizedTarget → NormalizedTarget
merge_target fs existing candidate =
    let sizes = raised_sizes existing candidate in
    let has_active =
      is_active_worktree_target existing.item || is_active_worktree_target candidate.item in
    let item = with_active_status has_active (chosen_item fs existing candidate) in
    record existing {
      item = record item { size = raw_size (target_raw_path_key item.path) sizes };
      index = if ltb candidate.index existing.index then candidate.index else existing.index;
      raw_sizes = sizes;
    }

unfoldable pub add_candidate :
    FileSystem → NormalizedTarget → List NormalizedTarget → List NormalizedTarget
add_candidate fs candidate [] = candidate ∷ []
add_candidate fs candidate (existing ∷ rest) =
    if text_eq existing.path candidate.path
    then merge_target fs existing candidate ∷ rest
    else existing ∷ add_candidate fs candidate rest

abbrev pub new_candidate : ℕ → Text → DebrisInfo → NormalizedTarget
new_candidate i path target = record {
  item = target;
  path = path;
  depth = target_path_depth path;
  index = i;
  raw_sizes = (target_raw_path_key target.path, target.size) ∷ [];
}

-- One round of the loop over the targets.
unfoldable pub add_target :
    FileSystem → ℕ → DebrisInfo → List NormalizedTarget → List NormalizedTarget
add_target fs i target by_path = elim (target_path_key fs target.path) [
  | none ↦ by_path
  | some path ↦ add_candidate fs (new_candidate i path target) by_path
]

unfoldable pub collect :
    FileSystem → ℕ → List NormalizedTarget → List DebrisInfo → List NormalizedTarget
collect fs i by_path [] = by_path
collect fs i by_path (target ∷ targets) =
    collect fs (i + 1) (add_target fs i target by_path) targets

-- Outer paths first.
abbrev pub shallower : NormalizedTarget → NormalizedTarget → Bool
shallower left right =
    if left.depth == right.depth then text_lt left.path right.path else ltb left.depth right.depth

-- The candidates that no candidate kept before contains.
unfoldable pub keep_outer : List NormalizedTarget → List NormalizedTarget → List NormalizedTarget
keep_outer kept [] = kept
keep_outer kept (candidate ∷ candidates) =
    keep_outer
      (if any_of (λ parent. path_contains parent.path candidate.path) kept
        then kept
        else kept ++ candidate ∷ [])
      candidates

-- Back into discovery order.
abbrev pub discovered_before : NormalizedTarget → NormalizedTarget → Bool
discovered_before left right =
    if left.index == right.index then text_lt left.path right.path else ltb left.index right.index

unfoldable pub kept_targets : FileSystem → List DebrisInfo → List NormalizedTarget
kept_targets fs targets =
    sort discovered_before (keep_outer [] (sort shallower (collect fs 0 [] targets)))

-- NormalizeTargets
unfoldable pub normalize_targets : FileSystem → List DebrisInfo → List DebrisInfo
unfolding kept_targets
normalize_targets fs targets = map (λ target. target.item) (kept_targets fs targets)

unfoldable pub has_key : FileSystem → DebrisInfo → Bool
has_key fs item = elim (target_path_key fs item.path) [ none ↦ false | some path ↦ true ]

-- PhysicalInventory
unfoldable pub physical_inventory : FileSystem → List DebrisInfo → List DebrisInfo
physical_inventory fs items =
    keep_if (λ item. not (has_key fs item)) items
    ++ normalize_targets fs (keep_if (λ item. has_key fs item) items)
