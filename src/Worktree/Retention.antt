-- ===== src/Worktree/Retention.antt =====
-- internal/worktree/policy.go: retainedCleanupUnits, the most recent units of each repository.
use aibris.Prelude.{
  ℕ, zero, suc, ℤ, lt_ℤ, le_ℤ, pos_part, Text, List, [], ◌∷◌, ◌++◌, map, Bool, ◌&&◌, ◌||◌,
  if◌then◌else◌, text_eq, text_lt, is_empty, any_of, sort,
}
use aibris.FilePath.{clean}
use aibris.Worktree.{Member, CleanupUnit}

-- CleanupUnitStableKey
unfoldable pub cleanup_unit_stable_key : CleanupUnit → Text
cleanup_unit_stable_key unit = clean unit.target_path

-- A unit of one repository: its key and its last activity.
pub record RepositoryUnit : Type 0 where
  pub key : Text
  pub last_activity : ℤ

-- byRepository[id] = append(byRepository[id], entry)
unfoldable pub append_to :
    Text → RepositoryUnit → List (Text × List RepositoryUnit) → List (Text × List RepositoryUnit)
append_to id entry [] = (id, entry ∷ []) ∷ []
append_to id entry ((k, group) ∷ groups) =
    let rest = append_to id entry groups in
    if text_eq k id then (k, group ++ entry ∷ []) ∷ groups else (k, group) ∷ rest

-- The loop over the members of one unit; `seen` is seenRepositories.
unfoldable pub group_members :
    RepositoryUnit
    → List Member
    → List Text
    → List (Text × List RepositoryUnit)
    → List (Text × List RepositoryUnit)
group_members entry [] seen groups = groups
group_members entry (m ∷ ms) seen groups =
    let skip = is_empty m.repository_id || any_of (text_eq m.repository_id) seen in
    group_members entry ms (if skip then seen else m.repository_id ∷ seen)
      (if skip then groups else append_to m.repository_id entry groups)

unfoldable pub group_units :
    List CleanupUnit → List (Text × List RepositoryUnit) → List (Text × List RepositoryUnit)
group_units [] groups = groups
group_units (unit ∷ units) groups = group_units units (
    group_members
      (record { key = cleanup_unit_stable_key unit; last_activity = unit.last_activity })
      unit.members [] groups)

-- The most recent first, ties by key.
unfoldable pub more_recent : RepositoryUnit → RepositoryUnit → Bool
more_recent a b =
    if le_ℤ a.last_activity b.last_activity && le_ℤ b.last_activity a.last_activity
    then text_lt a.key b.key
    else lt_ℤ b.last_activity a.last_activity

abbrev pub take {ℓ} : {A : Type ℓ} → ℕ → List A → List A
take zero xs = []
take (suc n) [] = []
take (suc n) (x ∷ xs) = x ∷ take n xs

unfoldable pub retained_keys : ℤ → List (Text × List RepositoryUnit) → List Text
retained_keys keep [] = []
retained_keys keep ((k, group) ∷ groups) =
    map (λ u. u.key) (take (pos_part keep) (sort more_recent group)) ++ retained_keys keep groups

-- retainedCleanupUnits, as the list of the map's keys.
unfoldable pub retained_cleanup_units : List CleanupUnit → ℤ → List Text
retained_cleanup_units units keep = retained_keys keep (group_units units [])
