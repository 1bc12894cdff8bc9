-- ===== src/Cleaner/Items.antt =====
-- Tests and keys of one item: internal/cleaner/execute_helpers.go (cleanupKind) and the keys and
-- ranks of internal/cleaner/targets.go. A file system is what os and filepath answer about it.
use aibris.Prelude.{
  ℕ, ◌≡◌, Text, List, [], ◌∷◌, ◌++◌, Bool, true, false, ◌&&◌, ◌||◌, not, Option, none, some, ltb,
  ◌==◌, if◌then◌else◌, text_eq, text_lt, is_empty,
}
use aibris.FilePath.{clean, is_abs}
use aibris.Types.{
  CleanupKind, DebrisInfo, category_text, status_text, kind_text, is_worktree, is_active,
  is_remove_path,
}

-- What os.Lstat finds at a path.
pub data Leaf : Type 0 where
  symlink other_leaf missing unreadable : Leaf

-- The operating system's answers: filepath.EvalSymlinks, os.Lstat, os.Readlink, and os.Stat as the
-- file's identity, which os.SameFile compares. `none` is an error.
pub record FileSystem : Type 0 where
  pub eval_symlinks : Text → Option Text
  pub lstat : Text → Leaf
  pub readlink : Text → Option Text
  pub stat : Text → Option ℕ

-- filepath.EvalSymlinks answers an absolute path with an absolute one.
abbrev pub ResolvesAbsolute : FileSystem → Type 0
ResolvesAbsolute fs = (p r : Text) → is_abs p ≡ true → fs.eval_symlinks p ≡ some r → is_abs r ≡ true

-- The ASCII white space of strings.TrimSpace.
abbrev pub is_space : ℕ → Bool
is_space c = c == 32 || ltb 8 c && ltb c 14

unfoldable pub trim_left_space : Text → Text
trim_left_space [] = []
trim_left_space (c ∷ s) = let rest = trim_left_space s in if is_space c then rest else c ∷ s

unfoldable pub trim_right_space : Text → Text
trim_right_space [] = []
trim_right_space (c ∷ s) =
    let rest = trim_right_space s in if is_empty rest && is_space c then [] else c ∷ rest

unfoldable pub trim_space : Text → Text
unfolding trim_left_space trim_right_space
trim_space s = trim_right_space (trim_left_space s)

-- cleanupKind
unfoldable pub effective_kind : DebrisInfo → CleanupKind
effective_kind w = elim w.cleanup_kind [ CleanupKind.unset ↦ CleanupKind.remove_path | kind ↦ kind ]

-- The path behind the links, or the path itself where it cannot be resolved.
unfoldable pub resolve_links : FileSystem → Text → Text
resolve_links fs path = elim (fs.eval_symlinks path) [
  | none ↦ path
  | some resolved ↦ clean resolved
]

-- TargetPathKey; `none` is its false.
unfoldable pub target_path_key : FileSystem → Text → Option Text
target_path_key fs path =
    let trimmed = trim_space path in
    if is_empty trimmed then none else some (resolve_links fs (clean trimmed))

-- TargetRawPathKey
unfoldable pub target_raw_path_key : Text → Text
target_raw_path_key path = clean (trim_space path)

abbrev pub is_symlink : Leaf → Bool
is_symlink symlink = true
is_symlink _ = false

-- TargetPathIsSymlink
unfoldable pub target_path_is_symlink : FileSystem → Text → Bool
target_path_is_symlink fs path = is_symlink (fs.lstat (target_raw_path_key path))

-- isActiveWorktreeTarget
abbrev pub is_active_worktree_target : DebrisInfo → Bool
is_active_worktree_target t = is_worktree t.category && is_active t.status

-- strings.Join(parts, "\x00"), and the same between the words of a command.
unfoldable pub join_nul : List Text → Text
join_nul [] = []
join_nul (w ∷ []) = w
join_nul (w ∷ v ∷ ws) = w ++ 0 ∷ join_nul (v ∷ ws)

-- TargetStableKey
unfoldable pub target_stable_key : DebrisInfo → Text
unfolding join_nul effective_kind
target_stable_key t = join_nul (
    category_text t.category
    ∷ t.tool
    ∷ t.id
    ∷ t.project
    ∷ t.source
    ∷ status_text t.status
    ∷ kind_text (effective_kind t)
    ∷ join_nul t.cleanup_command
    ∷ t.path
    ∷ [])

-- TargetRank
unfoldable pub target_rank : DebrisInfo → ℕ
unfolding effective_kind
target_rank t =
    if is_worktree t.category then 0 else if is_remove_path (effective_kind t) then 1 else 2

-- PreferTarget
unfoldable pub prefer_target : DebrisInfo → DebrisInfo → Bool
unfolding target_rank target_stable_key
prefer_target left right =
    if target_rank left == target_rank right
    then text_lt (target_stable_key left) (target_stable_key right)
    else ltb (target_rank left) (target_rank right)

abbrev both_or_neither : Bool → Bool → Bool
both_or_neither true b = b
both_or_neither false b = not b

-- PreferTargetForCanonical
unfoldable pub prefer_target_for_canonical : FileSystem → DebrisInfo → DebrisInfo → Text → Bool
unfolding target_path_is_symlink target_raw_path_key prefer_target
prefer_target_for_canonical fs left right canonical_path =
    let left_link = target_path_is_symlink fs left.path in
    let right_link = target_path_is_symlink fs right.path in
    let left_canonical = text_eq (target_raw_path_key left.path) canonical_path in
    let right_canonical = text_eq (target_raw_path_key right.path) canonical_path in
    if not (both_or_neither left_link right_link)
    then not left_link
    else if not (both_or_neither left_canonical right_canonical)
    then left_canonical
    else prefer_target left right
