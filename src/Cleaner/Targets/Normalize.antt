-- ===== src/Cleaner/Targets/Normalize.antt =====
-- The contract of NormalizeTargets.
use aibris.Prelude.{
  ◌≤◌, ◌≡◌, sym, Text, List, [], none, some, In, All, Pairwise, Pairwise-both, Pairwise-map, In-map,
  All-In, sort, All-sort, In-sort, Pairwise-sort, Pairwise-sort_symm, arith,
}
use aibris.Types.{DebrisInfo}
use aibris.Cleaner.Items.{FileSystem, ResolvesAbsolute, target_path_key}
use aibris.Cleaner.Targets.{
  NormalizedTarget, collect, shallower, keep_outer, discovered_before, kept_targets,
  normalize_targets,
}
use aibris.Cleaner.Targets.Merge.{
  IsAbsolute, target_path_key-some, Keyed, Distinct, collect-Keyed, collect-Distinct, collect-entry,
}
use aibris.Cleaner.Targets.Outer.{
  Apart, Apart-symm, ApartTargets, Before, Covers, text_eq_symm, keep_outer-Apart, keep_outer-All,
  keep_outer-Covers,
}

-- The key of an item, empty if it has none.
abbrev pub key_of : FileSystem → DebrisInfo → Text
key_of fs item = elim (target_path_key fs item.path) [ none ↦ [] | some key ↦ key ]

key_of-some :
    (fs : FileSystem) (item : DebrisInfo) (key : Text)
    → target_path_key fs item.path ≡ some key
    → key_of fs item ≡ key
key_of-some fs item key e = ground arith

module _ (fs : FileSystem) (resolves : ResolvesAbsolute fs) (ts : List DebrisInfo)
    (absolute : All IsAbsolute ts) where
  candidates : List NormalizedTarget
  candidates = sort shallower (collect fs 0 [] ts)

  candidates-Keyed : All (Keyed fs) candidates
  unfolding candidates
  candidates-Keyed =
      All-sort shallower (Keyed fs) (collect fs 0 [] ts)
        (collect-Keyed fs resolves 0 [] ts absolute tt)

  abbrev Shallow : NormalizedTarget → NormalizedTarget → Type 0
  Shallow a b = a.depth ≤ b.depth

  candidates-Before : Pairwise Before candidates
  unfolding candidates
  candidates-Before =
      Pairwise-both (Distinct fs) Shallow Before (sort shallower (collect fs 0 [] ts))
        (λ a b d s. record { apart = d; shallow = s })
        (Pairwise-sort_symm shallower (Distinct fs) (λ a b. text_eq_symm a.path b.path)
          (collect fs 0 [] ts) (collect-Distinct fs 0 [] ts tt))
        (Pairwise-sort shallower Shallow (λ a b c h k. omega arith) (λ a b h. ground arith)
          (λ a b h. ground arith) (collect fs 0 [] ts))

  kept_targets-Keyed : All (Keyed fs) (kept_targets fs ts)
  unfolding kept_targets candidates
  kept_targets-Keyed =
      All-sort discovered_before (Keyed fs) _
        (keep_outer-All fs (Keyed fs) [] candidates tt candidates-Keyed)

  kept_targets-Apart : Pairwise ApartTargets (kept_targets fs ts)
  unfolding kept_targets candidates
  kept_targets-Apart =
      Pairwise-sort_symm discovered_before ApartTargets (λ a b. Apart-symm a.path b.path) _
        (keep_outer-Apart fs [] candidates tt candidates-Keyed tt tt candidates-Before)

  -- Of absolute targets, NormalizeTargets keeps items whose keys are apart: for no two of them is
  -- one key the other or a path below it.
  pub normalize_targets-Apart :
      Pairwise (λ a b. Apart (key_of fs a) (key_of fs b)) (normalize_targets fs ts)
  unfolding normalize_targets
  normalize_targets-Apart =
      Pairwise-map (λ (t : NormalizedTarget). t.item) (Keyed fs) ApartTargets _ (kept_targets fs ts)
        (λ a b ka kb h.
          rw (key_of-some fs a.item a.path ka.key_eq)
            (rw (key_of-some fs b.item b.path kb.key_eq) h))
        kept_targets-Keyed kept_targets-Apart

  -- Each absolute target lies at or below the key of an item that NormalizeTargets keeps.
  pub normalize_targets-Covers :
      (t : DebrisInfo)
      → In t ts
      → (u : DebrisInfo) × In u (normalize_targets fs ts) × Covers (key_of fs u) (key_of fs t)
  unfolding normalize_targets kept_targets candidates
  normalize_targets-Covers t i =
      let (key, has) = target_path_key-some fs t.path (All-In IsAbsolute ts absolute t i) in
      let (e, listed, at) = collect-entry fs key 0 [] ts t i has in
      let (a, kept, c) =
        keep_outer-Covers fs [] candidates e (In-sort shallower (collect fs 0 [] ts) e listed) in
      let found = In-sort discovered_before (keep_outer [] candidates) a kept in
      let keyed = All-In (Keyed fs) (kept_targets fs ts) kept_targets-Keyed a found in
      (
        a.item,
        In-map (λ (n : NormalizedTarget). n.item) (kept_targets fs ts) a found,
        rw (key_of-some fs a.item a.path keyed.key_eq, key_of-some fs t key has, sym at) c,
      )
