-- ===== src/Worktree/Repositories.antt =====
-- internal/worktree/policy.go: the units that retainedCleanupUnits groups by repository.
use aibris.Prelude.{
  ◌≡◌, refl, sym, ap, ◌∙◌, subst, Text, List, [], ◌∷◌, ◌++◌, Bool, true, false, ◌||◌, inl, inr,
  Bool-cases, if_either, text_eq, text_eq_iff, is_empty, any_of, In, In-append_left,
  In-append_right, false≢true, All, All-snoc, All, All-snoc,
}
use aibris.Worktree.{Member, CleanupUnit}
use aibris.Worktree.Retention.{
  cleanup_unit_stable_key, RepositoryUnit, append_to, group_members, group_units,
}

abbrev pub Groups : Type 0
Groups = List (Text × List RepositoryUnit)

abbrev pub entry_of : CleanupUnit → RepositoryUnit
entry_of unit = record { key = cleanup_unit_stable_key unit; last_activity = unit.last_activity }

-- The entry stands in the group of the repository.
abbrev pub InGroup : Text → RepositoryUnit → Groups → Type 0
InGroup id entry groups = (group : List RepositoryUnit) × In (id, group) groups × In entry group

append_to-new :
    (id : Text) (entry : RepositoryUnit) (groups : Groups)
    → InGroup id entry (append_to id entry groups)
unfolding append_to
append_to-new id entry [] = (entry ∷ [], inl refl, inl refl)
append_to-new id entry ((k, group) ∷ groups) =
    if_either (InGroup id entry) (text_eq k id) _ _
      (λ e. (
        group ++ entry ∷ [],
        inl (λ i. (sym ((text_eq_iff k id).0 e) i, group ++ entry ∷ [])),
        In-append_right group (entry ∷ []) entry (inl refl),
      ))
      (λ e. let (g, i, j) = append_to-new id entry groups in (g, inr i, j))

append_to-old :
    (other : Text) (added : RepositoryUnit) (id : Text) (entry : RepositoryUnit) (groups : Groups)
    → InGroup id entry groups
    → InGroup id entry (append_to other added groups)
unfolding append_to
append_to-old other added id entry [] (g, i, j) = absurd i
append_to-old other added id entry ((k, group) ∷ groups) (g, inl q, j) =
    if_either (InGroup id entry) (text_eq k other) _ _
      (λ e. (
        group ++ added ∷ [],
        inl (λ i. ((q i).0, group ++ added ∷ [])),
        In-append_left group (added ∷ []) entry (subst (In entry) (λ i. (q i).1) j),
      ))
      (λ e. (g, inl q, j))
append_to-old other added id entry ((k, group) ∷ groups) (g, inr i, j) =
    if_either (InGroup id entry) (text_eq k other) _ _ (λ e. (g, inr i, j))
      (λ e. let (h, l, m) = append_to-old other added id entry groups (g, i, j) in (h, inr l, m))

group_members-old :
    (added : RepositoryUnit) (ms : List Member) (seen : List Text) (id : Text)
    (entry : RepositoryUnit) (groups : Groups)
    → InGroup id entry groups
    → InGroup id entry (group_members added ms seen groups)
unfolding group_members
group_members-old added [] seen id entry groups h = h
group_members-old added (m ∷ ms) seen id entry groups h = group_members-old added ms _ id entry _ (
    if_either (InGroup id entry) (is_empty m.repository_id || any_of (text_eq m.repository_id) seen)
      _ _ (λ e. h) (λ e. append_to-old m.repository_id added id entry groups h))

-- A unit has a member of the repository.
abbrev pub HasRepository : Text → CleanupUnit → Type 0
HasRepository id unit = (m : Member) × In m unit.members × (m.repository_id ≡ id)

group_members-new :
    (entry : RepositoryUnit) (id : Text)
    → is_empty id ≡ false
    → (ms : List Member) (seen : List Text) (groups : Groups)
    → (any_of (text_eq id) seen ≡ true → InGroup id entry groups)
    → (m : Member) → In m ms
    → m.repository_id ≡ id
    → InGroup id entry (group_members entry ms seen groups)
unfolding group_members any_of
group_members-new entry id full [] seen groups known m i e = absurd i
group_members-new entry id full (x ∷ ms) seen groups known m (inr j) e =
    elim (Bool-cases (is_empty x.repository_id || any_of (text_eq x.repository_id) seen)) [
      | inl s ↦ rw s (group_members-new entry id full ms seen groups known m j e)
      | inr s ↦ rw s (
          group_members-new entry id full ms (x.repository_id ∷ seen)
            (append_to x.repository_id entry groups)
            (λ h. elim (Bool-cases (text_eq id x.repository_id)) [
              | inl q ↦
                  subst (λ (t : Text). InGroup t entry (append_to x.repository_id entry groups))
                    (sym ((text_eq_iff id x.repository_id).0 q))
                    (append_to-new x.repository_id entry groups)
              | inr q ↦
                  append_to-old x.repository_id entry id entry groups
                    (known (sym (ap (λ (b : Bool). b || any_of (text_eq id) seen) q) ∙ h))
            ])
            m j e)
    ]
group_members-new entry id full (x ∷ ms) seen groups known m (inl q) e =
    let same : x.repository_id ≡ id = ap (λ (y : Member). y.repository_id) (sym q) ∙ e in
    elim (Bool-cases (any_of (text_eq id) seen)) [
      | inl s ↦
          rw
            (ap (λ (t : Text). is_empty t || any_of (text_eq t) seen) same
              ∙ ap (λ (b : Bool). b || any_of (text_eq id) seen) full
              ∙ s)
            (group_members-old entry ms seen id entry groups (known s))
      | inr s ↦
          rw
            (ap (λ (t : Text). is_empty t || any_of (text_eq t) seen) same
              ∙ ap (λ (b : Bool). b || any_of (text_eq id) seen) full
              ∙ s)
            (group_members-old entry ms (x.repository_id ∷ seen) id entry
              (append_to x.repository_id entry groups)
              (subst (λ (t : Text). InGroup t entry (append_to x.repository_id entry groups)) same
                (append_to-new x.repository_id entry groups)))
    ]

group_units-old :
    (units : List CleanupUnit) (id : Text) (entry : RepositoryUnit) (groups : Groups)
    → InGroup id entry groups
    → InGroup id entry (group_units units groups)
unfolding group_units
group_units-old [] id entry groups h = h
group_units-old (u ∷ units) id entry groups h =
    group_units-old units id entry _ (group_members-old (entry_of u) u.members [] id entry groups h)

-- Each unit stands in the group of each of its repositories.
pub group_units-InGroup :
    (units : List CleanupUnit) (groups : Groups) (unit : CleanupUnit) (id : Text)
    → In unit units
    → is_empty id ≡ false
    → HasRepository id unit
    → InGroup id (entry_of unit) (group_units units groups)
unfolding group_units any_of
group_units-InGroup [] groups unit id i full h = absurd i
group_units-InGroup (u ∷ units) groups unit id (inr j) full h =
    group_units-InGroup units _ unit id j full h
group_units-InGroup (u ∷ units) groups unit id (inl q) full (m, i, e) =
    group_units-old units id (entry_of unit) _ (
      subst
        (λ (v : CleanupUnit).
          InGroup id (entry_of unit) (group_members (entry_of v) v.members [] groups))
        q
        (group_members-new (entry_of unit) id full unit.members [] groups
          (λ h. absurd (false≢true h)) m i e))

-- What holds of every unit's entry under each of its repositories holds in the groups.
module _ (P : Text → RepositoryUnit → Type 0) where
  abbrev GroupHolds : Text × List RepositoryUnit → Type 0
  GroupHolds group = All (P group.0) group.1

  append_to-holds :
      (id : Text) (added : RepositoryUnit) (groups : Groups)
      → P id added
      → All GroupHolds groups
      → All GroupHolds (append_to id added groups)
  unfolding append_to
  append_to-holds id added [] p h = ((p, tt), tt)
  append_to-holds id added ((k, g) ∷ groups) p h =
      if_either (All GroupHolds) (text_eq k id) _ _
        (λ e. (
          All-snoc (P k) g added h.0 (subst (λ t. P t added) (sym ((text_eq_iff k id).0 e)) p),
          h.1,
        ))
        (λ e. (h.0, append_to-holds id added groups p h.1))

  group_members-holds :
      (added : RepositoryUnit) (ms : List Member)
      → All (λ m. P m.repository_id added) ms
      → (seen : List Text) (groups : Groups) → All GroupHolds groups
      → All GroupHolds (group_members added ms seen groups)
  unfolding group_members
  group_members-holds added [] p seen groups h = h
  group_members-holds added (m ∷ ms) p seen groups h = group_members-holds added ms p.1 _ _ (
      if_either (All GroupHolds) (is_empty m.repository_id || any_of (text_eq m.repository_id) seen)
        _ _ (λ e. h) (λ e. append_to-holds m.repository_id added groups p.0 h))

  pub group_units-holds :
      (units : List CleanupUnit)
      → All (λ u. All (λ m. P m.repository_id (entry_of u)) u.members) units
      → (groups : Groups) → All GroupHolds groups
      → All GroupHolds (group_units units groups)
  unfolding group_units
  group_units-holds [] p groups h = h
  group_units-holds (u ∷ units) p groups h =
      group_units-holds units p.1 _ (group_members-holds (entry_of u) u.members p.0 [] groups h)
