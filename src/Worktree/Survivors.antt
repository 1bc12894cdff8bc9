-- ===== src/Worktree/Survivors.antt =====
-- internal/worktree/policy.go: a plan leaves a unit of every repository.
use aibris.Prelude.{
  ℕ, zero, suc, ◌≤◌, ℤ, pos, ◌≤ℤ◌, All-map, le_ℤ, pos_part, ◌≡◌, refl, sym, ap, ◌∙◌, subst, Text,
  List, [], ◌∷◌, map, true, false, inl, inr, Bool-cases, text_eq, text_eq_refl, is_empty, In-any_of,
  In, In-append_left, In-append_right, In-sort, Pairwise, Pairwise-sort, All, All-In, All-intro,
  All-sort, sort, arith, false≢true,
}
use aibris.Cleaner.Items.{FileSystem}
use aibris.Worktree.{CleanupUnit, CleanupPolicy, Decision, is_recommended}
use aibris.Worktree.Retention.{
  cleanup_unit_stable_key, RepositoryUnit, group_units, more_recent, take, retained_keys,
  retained_cleanup_units,
}
use aibris.Worktree.Repositories.{
  Groups, entry_of, HasRepository, group_units-InGroup, group_units-holds,
}
use aibris.Worktree.Policy.{
  is_retained, classify_cleanup_unit, decide, fill_cleanup_policy, plan_worktree_cleanup,
}
use aibris.Worktree.Policy.Plan.{fill_cleanup_policy-positive, decide-subject}

abbrev AtLeastAsRecent : RepositoryUnit → RepositoryUnit → Type 0
AtLeastAsRecent a b = b.last_activity ≤ℤ a.last_activity

more_recent-true : (a b : RepositoryUnit) → more_recent a b ≡ true → AtLeastAsRecent a b
unfolding more_recent
more_recent-true a b h = ground arith

more_recent-false : (a b : RepositoryUnit) → more_recent a b ≡ false → AtLeastAsRecent b a
unfolding more_recent
more_recent-false a b h = ground arith

-- The first of a group, sorted: it is at least as recent as every other.
abbrev First : List RepositoryUnit → RepositoryUnit → Type 0
First group entry =
    (first : RepositoryUnit) × (rest : List RepositoryUnit) × (sort more_recent group
      ≡ first ∷ rest)
    × AtLeastAsRecent first entry

sorted-First :
    (group : List RepositoryUnit) (entry : RepositoryUnit) → In entry group → First group entry
sorted-First group entry i =
    after (sort more_recent group) refl (In-sort more_recent group entry i) (
      Pairwise-sort more_recent AtLeastAsRecent (λ a b c h k. omega (arith, h, k)) more_recent-true
        more_recent-false group)
  where
    after :
        (sorted : List RepositoryUnit)
        → sort more_recent group ≡ sorted
        → In entry sorted
        → Pairwise AtLeastAsRecent sorted
        → First group entry
    after [] e j p = absurd j
    after (first ∷ rest) e (inl q) p =
        (first, rest, e, subst (AtLeastAsRecent first) (sym q) (omega arith))
    after (first ∷ rest) e (inr j) p =
        (first, rest, e, All-In (AtLeastAsRecent first) rest p.0 entry j)

-- The key of the first entry of a group is retained.
first-retained :
    (keep : ℤ) (groups : Groups) (id : Text) (group : List RepositoryUnit) (first : RepositoryUnit)
    (rest : List RepositoryUnit)
    → le_ℤ keep (pos 0) ≡ false
    → In (id, group) groups
    → sort more_recent group ≡ first ∷ rest
    → In first.key (retained_keys keep groups)
unfolding retained_keys
first-retained keep [] id group first rest k i e = absurd i
first-retained keep ((k', g) ∷ groups) id group first rest k (inr j) e =
    In-append_right _ _ first.key (first-retained keep groups id group first rest k j e)
first-retained keep ((k', g) ∷ groups) id group first rest k (inl q) e =
    In-append_left _ _ first.key (
      subst (λ (s : List RepositoryUnit). In first.key (map (λ u. u.key) (take (pos_part keep) s)))
        (sym (sym (ap (λ (p : Text × List RepositoryUnit). sort more_recent p.1) q) ∙ e))
        (taken (pos_part keep) (positive keep k)))
  where
    positive : (z : ℤ) → le_ℤ z (pos 0) ≡ false → 1 ≤ pos_part z
    positive z h = ground arith

    taken : (n : ℕ) → 1 ≤ n → In first.key (map (λ u. u.key) (take n (first ∷ rest)))
    taken zero h = absurd (omega arith)
    taken (suc n) h = inl refl

recommended-not_retained :
    (fs : FileSystem) (policy : CleanupPolicy) (retained : List Text) (unit : CleanupUnit)
    → is_recommended (decide fs policy retained unit).class ≡ true
    → is_retained retained unit ≡ false
unfolding classify_cleanup_unit
recommended-not_retained fs policy retained unit h = ground arith

retained-not_recommended :
    (fs : FileSystem) (policy : CleanupPolicy) (retained : List Text) (unit : CleanupUnit)
    → In (cleanup_unit_stable_key unit) retained
    → is_recommended (decide fs policy retained unit).class ≡ false
retained-not_recommended fs policy retained unit i =
    elim (Bool-cases (is_recommended (decide fs policy retained unit).class)) [
      | inr e ↦ e
      | inl e ↦ absurd (
          false≢true (
            sym (recommended-not_retained fs policy retained unit e)
            ∙ In-any_of (text_eq (cleanup_unit_stable_key unit)) retained
                (cleanup_unit_stable_key unit) i (text_eq_refl (cleanup_unit_stable_key unit))))
    ]

module _ (fs : FileSystem) (units : List CleanupUnit) (policy : CleanupPolicy) where
  abbrev kept_keys : List Text
  kept_keys = retained_cleanup_units units (fill_cleanup_policy policy).keep_per_repository

  abbrev IsDecided : Decision → Type 0
  IsDecided d =
      (d ≡ decide fs (fill_cleanup_policy policy) kept_keys d.subject) × In d.subject units

  plan-IsDecided : All IsDecided (plan_worktree_cleanup fs units policy)
  unfolding plan_worktree_cleanup
  plan-IsDecided =
      let filled = fill_cleanup_policy policy in
      All-sort _ IsDecided (map (decide fs filled kept_keys) units) (
        All-map (decide fs filled kept_keys) IsDecided units (
          All-intro (λ unit. IsDecided (decide fs filled kept_keys unit)) units
            (λ unit i.
              let e = decide-subject fs filled kept_keys unit in
              (ap (decide fs filled kept_keys) (sym e), subst (λ u. In u units) (sym e) i))))

  -- A unit of a repository that the plan leaves.
  pub record Survivor (id : Text) (recommended : CleanupUnit) : Type 0 where
    pub unit : CleanupUnit
    pub listed : In unit units
    pub repository : HasRepository id unit
    pub as_recent : recommended.last_activity ≤ℤ unit.last_activity
    pub left :
        (e : Decision)
        → In e (plan_worktree_cleanup fs units policy)
        → e.subject ≡ unit
        → is_recommended e.class ≡ false

  abbrev IsUnit : Text → RepositoryUnit → Type 0
  IsUnit id entry = (w : CleanupUnit) × In w units × HasRepository id w × (entry ≡ entry_of w)

  groups-IsUnit :
      All (λ (g : Text × List RepositoryUnit). All (IsUnit g.0) g.1) (group_units units [])
  groups-IsUnit =
      group_units-holds IsUnit units
        (All-intro (λ u. All (λ m. IsUnit m.repository_id (entry_of u)) u.members) units
          (λ u i.
            All-intro (λ m. IsUnit m.repository_id (entry_of u)) u.members
              (λ m j. (u, i, (m, j, refl), refl))))
        [] tt

  -- Of each repository that a recommended unit belongs to, the plan leaves a unit that was active at
  -- least as recently: no plan recommends every unit of a repository.
  pub plan_worktree_cleanup-Survivor :
      (d : Decision)
      → In d (plan_worktree_cleanup fs units policy)
      → is_recommended d.class ≡ true
      → (id : Text) → is_empty id ≡ false
      → HasRepository id d.subject
      → Survivor id d.subject
  unfolding retained_cleanup_units
  plan_worktree_cleanup-Survivor d i recommended id full has =
      let filled = fill_cleanup_policy policy in
      let (_, listed) =
        All-In IsDecided (plan_worktree_cleanup fs units policy) plan-IsDecided d i in
      let (group, in_groups, in_group) =
        group_units-InGroup units [] d.subject id listed full has in
      let (first, rest, sorted, recent) = sorted-First group (entry_of d.subject) in_group in
      let first_in : In first group =
        All-In (λ (v : RepositoryUnit). In v group) (sort more_recent group)
          (All-sort more_recent (λ v. In v group) group
            (All-intro (λ v. In v group) group (λ v j. j)))
          first (subst (In first) (sym sorted) (inl refl)) in
      let (w, w_in, w_has, same) =
        All-In (IsUnit id) group
          (All-In (λ (g : Text × List RepositoryUnit). All (IsUnit g.0) g.1) (group_units units [])
            groups-IsUnit (id, group) in_groups)
          first first_in in
      let kept : In (cleanup_unit_stable_key w) kept_keys =
        subst (λ (v : RepositoryUnit). In v.key kept_keys) same
          (first-retained filled.keep_per_repository (group_units units []) id group first rest
            (fill_cleanup_policy-positive policy).1 in_groups sorted) in
      record {
        unit = w;
        listed = w_in;
        repository = w_has;
        as_recent =
            subst (λ (v : RepositoryUnit). d.subject.last_activity ≤ℤ v.last_activity) same recent;
        left = λ e j q.
            ap (λ (x : Decision). is_recommended x.class)
              (All-In IsDecided (plan_worktree_cleanup fs units policy) plan-IsDecided e j).0
            ∙ ap (λ (x : CleanupUnit). is_recommended (decide fs filled kept_keys x).class) q
            ∙ retained-not_recommended fs filled kept_keys w kept;
      }
