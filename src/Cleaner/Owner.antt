-- ===== src/Cleaner/Owner.antt =====
-- internal/cleaner/targets.go: ApplyPhysicalOwnerSafety. The map of active owners is the list of its
-- keys, the protections the list of the protected items' keys; their one reason is left out.
use aibris.Prelude.{
  ◌≡◌, refl, sym, ap, ◌∙◌, Text, List, [], ◌∷◌, ◌++◌, Bool, true, false, ◌&&◌, not, none, some, ◌⊎◌,
  inl, inr, if◌then◌else◌, text_eq, text_eq_refl, any_of, any_of-In, In-any_of, text_eq_iff, Option,
  In, All, All-In, arith, Bool-cases, Option-cases, if_either,
}
use aibris.Types.{DebrisInfo, WorktreeStatus, category_text, is_worktree, is_active}
use aibris.Cleaner.Items.{FileSystem, target_path_key, is_active_worktree_target}

-- PhysicalOwnerItemKey
unfoldable pub physical_owner_item_key : DebrisInfo → Text
physical_owner_item_key item =
    category_text item.category ++ (0 ∷ item.tool ++ (0 ∷ item.id ++ (0 ∷ item.path)))

unfoldable pub active_owners : FileSystem → List DebrisInfo → List Text
active_owners fs [] = []
active_owners fs (item ∷ inventory) =
    let rest = active_owners fs inventory in
    if is_active_worktree_target item
    then elim (target_path_key fs item.path) [ none ↦ rest | some path ↦ path ∷ rest ]
    else rest

-- `path, ok := TargetPathKey(…)` with `ok && activeOwners[path]`.
unfoldable pub has_active_owner : FileSystem → List Text → DebrisInfo → Bool
has_active_owner fs owners item = elim (target_path_key fs item.path) [
  | none ↦ false
  | some path ↦ any_of (λ owner. text_eq owner path) owners
]

unfoldable pub owner_protections : FileSystem → List Text → List DebrisInfo → List Text
owner_protections fs owners [] = []
owner_protections fs owners (item ∷ inventory) =
    let rest = owner_protections fs owners inventory in
    if is_worktree item.category && has_active_owner fs owners item
    then physical_owner_item_key item ∷ rest
    else rest

unfoldable pub filter_owned : FileSystem → List Text → Bool → List DebrisInfo → List DebrisInfo
filter_owned fs owners include_active [] = []
filter_owned fs owners include_active (target ∷ targets) =
    let rest = filter_owned fs owners include_active targets in
    if not (is_worktree target.category)
    then target ∷ rest
    else if not (has_active_owner fs owners target)
    then target ∷ rest
    else if not include_active
    then rest
    else record target { status = WorktreeStatus.active } ∷ rest

-- ApplyPhysicalOwnerSafety
unfoldable pub apply_physical_owner_safety :
    FileSystem → List DebrisInfo → List DebrisInfo → Bool → List DebrisInfo × List Text
apply_physical_owner_safety fs inventory targets include_active =
    let owners = active_owners fs inventory in
    (
      filter_owned fs owners include_active targets,
      if include_active then [] else owner_protections fs owners inventory,
    )

In-active_owners :
    (fs : FileSystem) (inventory : List DebrisInfo) (a : DebrisInfo) (key : Text)
    → In a inventory
    → is_active_worktree_target a ≡ true
    → target_path_key fs a.path ≡ some key
    → In key (active_owners fs inventory)
unfolding active_owners
In-active_owners fs [] a key i act e = absurd i
In-active_owners fs (b ∷ inventory) a key (inl q) act e =
    let act' : is_active_worktree_target b ≡ true = ap is_active_worktree_target (sym q) ∙ act in
    let e' : target_path_key fs b.path ≡ some key =
      ap (λ (t : DebrisInfo). target_path_key fs t.path) (sym q) ∙ e in
    rw (act', e') (inl refl)
In-active_owners fs (b ∷ inventory) a key (inr j) act e =
    elim (Bool-cases (is_active_worktree_target b)) [
      | inl act' ↦ elim (Option-cases (target_path_key fs b.path)) [
        | inl n ↦ rw (act', n) (In-active_owners fs inventory a key j act e)
        | inr (k, n) ↦ rw (act', n) (inr (In-active_owners fs inventory a key j act e))
      ]
      | inr idle ↦ rw idle (In-active_owners fs inventory a key j act e)
    ]

has_active_owner-true :
    (fs : FileSystem) (owners : List Text) (u : DebrisInfo) (key : Text)
    → In key owners
    → target_path_key fs u.path ≡ some key
    → has_active_owner fs owners u ≡ true
unfolding has_active_owner
has_active_owner-true fs owners u key i e =
    rw (e, has_active_owner)
      (In-any_of (λ owner. text_eq owner key) owners key i (text_eq_refl key))

-- A key of an active worktree of the inventory.
abbrev KeyOf : FileSystem → Text → List DebrisInfo → Type 0
KeyOf fs key inventory =
    (a : DebrisInfo) × In a inventory
    × (is_active_worktree_target a ≡ true)
    × (target_path_key fs a.path ≡ some key)

active_owners-In :
    (fs : FileSystem) (inventory : List DebrisInfo) (key : Text)
    → In key (active_owners fs inventory)
    → KeyOf fs key inventory
unfolding active_owners
active_owners-In fs [] key i = absurd i
active_owners-In fs (b ∷ inventory) key i =
    let later : In key (active_owners fs inventory) → KeyOf fs key (b ∷ inventory) =
      λ j. let (a, k, act, e) = active_owners-In fs inventory key j in (a, inr k, act, e) in
    if_either (λ owners. In key owners → KeyOf fs key (b ∷ inventory)) (is_active_worktree_target b)
      _ (active_owners fs inventory) (λ act. of_key later act (target_path_key fs b.path) refl)
      (λ idle. later) i
  where
    of_key :
        (In key (active_owners fs inventory) → KeyOf fs key (b ∷ inventory))
        → is_active_worktree_target b ≡ true
        → (o : Option Text) → target_path_key fs b.path ≡ o
        → In key (elim o [
          | none ↦ active_owners fs inventory
          | some path ↦ path ∷ active_owners fs inventory
        ])
        → KeyOf fs key (b ∷ inventory)
    of_key later act none e j = later j
    of_key later act (some path) e (inl q) =
        (b, inl refl, act, e ∙ ap (λ (t : Text). some t) (sym q))
    of_key later act (some path) e (inr j) = later j

has_active_owner-none :
    (fs : FileSystem) (inventory : List DebrisInfo) (t : DebrisInfo)
    → ((a : DebrisInfo) (key : Text)
        → In a inventory
        → is_active_worktree_target a ≡ true
        → target_path_key fs a.path ≡ some key
        → ¬ (target_path_key fs t.path ≡ some key))
    → has_active_owner fs (active_owners fs inventory) t ≡ false
unfolding has_active_owner
has_active_owner-none fs inventory t free =
    elim (Bool-cases (has_active_owner fs (active_owners fs inventory) t)) [
      | inr e ↦ e
      | inl e ↦ elim (Option-cases (target_path_key fs t.path)) [
        | inl n ↦ rw (has_active_owner, n) refl
        | inr (key, k) ↦
            let (owner, i, same) =
              any_of-In (λ owner. text_eq owner key) (active_owners fs inventory) (ground arith) in
            let (a, j, act, q) = active_owners-In fs inventory owner i in
            absurd
              (free a key j act (q ∙ ap (λ (x : Text). some x) ((text_eq_iff owner key).0 same)) k)
      ]
    ]

-- An item that may pass: no worktree, no active owner, or an active worktree on the caller's word.
abbrev Passes : FileSystem → List Text → Bool → DebrisInfo → Type 0
Passes fs owners include_active u =
    (is_worktree u.category ≡ false)
    ⊎ ((has_active_owner fs owners u ≡ false)
        ⊎ ((include_active ≡ true) × (is_active u.status ≡ true)))

module _ (fs : FileSystem) (owners : List Text) (include_active : Bool) where
  filter_owned-Passes :
      (targets : List DebrisInfo)
      → All (Passes fs owners include_active) (filter_owned fs owners include_active targets)
  unfolding filter_owned
  filter_owned-Passes [] = tt
  filter_owned-Passes (t ∷ targets) =
      let P = All (Passes fs owners include_active) in
      let rest = filter_owned-Passes targets in
      if_either P (not (is_worktree t.category)) _ _ (λ e. (inl (ground arith), rest))
        λ tree.
          if_either P (not (has_active_owner fs owners t)) _ _
            (λ free. (inr (inl (ground arith)), rest))
            λ owned.
              if_either P (not include_active) _ _ (λ e. rest)
                λ asked. (inr (inr (ground arith, refl)), rest)

  -- What has no active owner passes as it is.
  filter_owned-keeps :
      (targets : List DebrisInfo) (t : DebrisInfo)
      → In t targets
      → has_active_owner fs owners t ≡ false
      → In t (filter_owned fs owners include_active targets)
  unfolding filter_owned
  filter_owned-keeps [] t i free = absurd i
  filter_owned-keeps (s ∷ targets) t (inl q) free =
      let P = In t in
      let free' : has_active_owner fs owners s ≡ false =
        ap (has_active_owner fs owners) (sym q) ∙ free in
      if_either P (not (is_worktree s.category)) _ _ (λ e. inl q) λ tree. rw free' (inl q)
  filter_owned-keeps (s ∷ targets) t (inr j) free =
      let P = In t in
      let rest = filter_owned-keeps targets t j free in
      if_either P (not (is_worktree s.category)) _ _ (λ e. inr rest)
        λ tree.
          if_either P (not (has_active_owner fs owners s)) _ _ (λ e. inr rest)
            λ owned. if_either P (not include_active) _ _ (λ e. rest) λ e. inr rest

module _ (fs : FileSystem) (inventory targets : List DebrisInfo) (include_active : Bool) where
  -- A worktree that is left among the targets and has the key of an active worktree of the
  -- inventory is left only if active worktrees are included, and then its status is active.
  pub apply_physical_owner_safety-guards :
      (a u : DebrisInfo) (key : Text)
      → In a inventory
      → is_active_worktree_target a ≡ true
      → target_path_key fs a.path ≡ some key
      → In u (apply_physical_owner_safety fs inventory targets include_active).0
      → is_worktree u.category ≡ true
      → target_path_key fs u.path ≡ some key
      → (include_active ≡ true) × (is_active u.status ≡ true)
  unfolding apply_physical_owner_safety
  apply_physical_owner_safety-guards a u key ia act ka iu tree ku =
      let owners = active_owners fs inventory in
      let owned : has_active_owner fs owners u ≡ true =
        has_active_owner-true fs owners u key (In-active_owners fs inventory a key ia act ka) ku in
      ground (
        arith,
        All-In (Passes fs owners include_active) (filter_owned fs owners include_active targets)
            (filter_owned-Passes fs owners include_active targets) u iu,
      )

  -- A target whose key, if it has one, is the key of no active worktree of the inventory stays a
  -- target, unchanged.
  pub apply_physical_owner_safety-keeps :
      (t : DebrisInfo)
      → In t targets
      → ((a : DebrisInfo) (key : Text)
          → In a inventory
          → is_active_worktree_target a ≡ true
          → target_path_key fs a.path ≡ some key
          → ¬ (target_path_key fs t.path ≡ some key))
      → In t (apply_physical_owner_safety fs inventory targets include_active).0
  unfolding apply_physical_owner_safety
  apply_physical_owner_safety-keeps t i free =
      filter_owned-keeps fs (active_owners fs inventory) include_active targets t i
        (has_active_owner-none fs inventory t free)
