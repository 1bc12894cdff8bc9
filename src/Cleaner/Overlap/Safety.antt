-- ===== src/Cleaner/Overlap/Safety.antt =====
-- What BuildOverlapSafetyPlan guarantees of the agent state in its evidence.
use aibris.Prelude.{
  ℕ, suc, ◌≡◌, refl, sym, ap, ◌∙◌, subst, Text, List, [], ◌∷◌, ◌++◌, true, false, ◌||◌, ◌==◌, not,
  none, some, ◌⊎◌, inl, inr, if_either, In, All-In, In-sort,
}
use aibris.Types.{DebrisInfo, is_agent_state, is_orphaned, is_command}
use aibris.Cleaner.Items.{FileSystem, effective_kind, trim_space}
use aibris.Cleaner.Overlap.{
  PathIdentity, IdentityError, OverlapSafetyMatch, OverlapSafetyComponent, OverlapSafetyEvidence,
}
use aibris.Cleaner.Overlap.Identity.{
  canonical_existing_path_identity, canonical_overlap_relation, is_related, link_limit,
  resolve_within,
}
use aibris.Cleaner.Overlap.Apart.{Unrelated, ambiguous_may_overlap-disjoint}
use aibris.FilePath.{clean, is_abs}
use aibris.Cleaner.Overlap.Entries.{
  Context, AgentStateEntry, Entries, canonical_agent_state_entries,
}
use aibris.Cleaner.Overlap.Component.{
  Lookup, entry_for_match, obligation_before, head_match, build_overlap_safety_component,
}
use aibris.Cleaner.Overlap.Evidence.{Identified}
use aibris.Cleaner.Overlap.Plan.{
  PlanResult, before_plan, plan_components, build_overlap_safety_plan,
}
use aibris.Cleaner.Overlap.Evidence.{
  StaysCancelled, entry_of, entries_complete, ambiguous_complete, entries-Identified,
}
use aibris.Cleaner.Overlap.Gathered.{HasObligation, FoundEntry, entry_for_match-found, gather-new}
use aibris.Cleaner.Overlap.Obligations.{
  first_protected-none, overlap_matches-In, first_ambiguous-none, Allowed, build-Allowed,
}

module _ {R : Type 0} (fs : FileSystem) (ctx : Context) (found : Entries) (lookup : Lookup R) where
  abbrev Built : ℕ → List DebrisInfo → OverlapSafetyComponent → Type 0
  Built reads candidates c =
      (ctx reads ≡ false)
      × ((target : DebrisInfo) × In target candidates
          × (c ≡ build_overlap_safety_component fs target found.entries found.ambiguous lookup))

  abbrev IfPlanned : ℕ → List DebrisInfo → PlanResult → Type 0
  IfPlanned reads candidates r =
      (cs : List OverlapSafetyComponent)
      → r ≡ inl cs
      → (c : OverlapSafetyComponent) → In c cs
      → Built reads candidates c

  before_plan-Built :
      (n : ℕ) (x : DebrisInfo) (candidates : List DebrisInfo) (r : PlanResult)
      → ctx n ≡ false
      → IfPlanned (suc n) candidates r
      → IfPlanned n
          (x ∷ candidates)
          (before_plan (build_overlap_safety_component fs x found.entries found.ambiguous lookup) r)
  before_plan-Built n x candidates (inr error) live h cs e c i = cc
  before_plan-Built n x candidates (inl rest) live h cs e c i =
      elim (split (subst (In c) (sym eq) i)) [
        | inl q ↦ (live, (x, inl refl, q))
        | inr j ↦ let (_, (target, k, q)) = h rest refl c j in (live, (target, inr k, q))
      ]
    where
      eq : build_overlap_safety_component fs x found.entries found.ambiguous lookup ∷ rest ≡ cs
      eq = cc

      split :
          In c (build_overlap_safety_component fs x found.entries found.ambiguous lookup ∷ rest)
          → (c ≡ build_overlap_safety_component fs x found.entries found.ambiguous lookup)
            ⊎ In c rest
      split s = s

  plan_components-Built :
      (reads : ℕ) (candidates : List DebrisInfo)
      → IfPlanned reads candidates (plan_components fs ctx reads found lookup candidates)
  unfolding plan_components
  plan_components-Built reads [] = λ cs e c i. absurd (subst (In c) (sym (nil_eq cs e)) i)
    where
      nil_eq : (cs : List OverlapSafetyComponent) → ◌≡◌ {A = PlanResult} (inl []) (inl cs) → [] ≡ cs
      nil_eq cs e = cc
  plan_components-Built reads (x ∷ candidates) =
      if_either (IfPlanned reads (x ∷ candidates)) (ctx reads) _ _ (λ c cs e. cc)
        λ live.
          before_plan-Built reads x candidates _ live (plan_components-Built (suc reads) candidates)

head_match-none :
    (matches : List OverlapSafetyMatch) (m : OverlapSafetyMatch)
    → In m matches
    → ¬ (head_match matches ≡ none)
head_match-none [] m i h = i
head_match-none (x ∷ matches) m i h = cc

inl-injective :
    (a b : PathIdentity) → ◌≡◌ {A = PathIdentity ⊎ IdentityError} (inl a) (inl b) → a ≡ b
inl-injective a b e = cc

module _ {R : Type 0} (fs : FileSystem) (ctx : Context) (stays : StaysCancelled ctx)
    (evidence : OverlapSafetyEvidence) (candidates : List DebrisInfo) (lookup : Lookup R)
    (components : List OverlapSafetyComponent)
    (planned : build_overlap_safety_plan fs ctx evidence candidates lookup ≡ inl components)
    (c : OverlapSafetyComponent) (listed : In c components) (allowed : c.refusal ≡ none) where
  found : Entries
  found = canonical_agent_state_entries fs ctx 1 evidence.items

  c-Built : Built fs ctx found lookup found.reads candidates c
  unfolding build_overlap_safety_plan found
  c-Built =
      if_either (IfPlanned fs ctx found lookup found.reads candidates) (ctx 0) _ _ (λ stop cs e. cc)
        (λ live.
          if_either (IfPlanned fs ctx found lookup found.reads candidates)
            (not evidence.complete || not (evidence.provider_errors == 0)) _ _ (λ partial cs e. cc)
            λ full. plan_components-Built fs ctx found lookup found.reads candidates)
        components planned c listed

  c-Allowed :
      (target : DebrisInfo) × In target candidates
      × Allowed fs lookup found.entries found.ambiguous target c
  c-Allowed =
      let (live, (target, i, q)) = c-Built in
      (
        target,
        i,
        subst (Allowed fs lookup found.entries found.ambiguous target) (sym q) (
            build-Allowed fs lookup found.entries found.ambiguous target
              (ap (λ (d : OverlapSafetyComponent). d.refusal) (sym q) ∙ allowed)),
      )

  module _ (item : DebrisInfo) (known : In item evidence.items)
      (agent : is_agent_state item.category ≡ true) where
    -- An allowed component of a plan made under a context that stays cancelled once it is: each item
    -- of agent state in the evidence whose canonical path is, contains or lies below the target's is
    -- orphaned, the target is no command, and the component has an obligation under the item's
    -- tool and canonical path.
    pub build_overlap_safety_plan-protects :
        (identity : PathIdentity)
        → canonical_existing_path_identity fs item.path ≡ inl identity
        → is_related (canonical_overlap_relation c.canonical_path identity.canonical) ≡ true
        → (is_orphaned item.classification ≡ true)
          × (is_command (effective_kind c.target) ≡ false)
          × HasObligation (item.tool ++ (0 ∷ identity.canonical)) c.obligations
    unfolding found
    build_overlap_safety_plan-protects identity resolved related =
        let (live, _) = c-Built in
        let (target, _, a) = c-Allowed in
        let entry : AgentStateEntry = entry_of item identity in
        let there =
          entries_complete fs ctx stays evidence.items live item known agent identity resolved in
        let related' : is_related
              (canonical_overlap_relation c.target_identity.canonical identity.canonical)
            ≡ true =
          ap (λ (p : Text). is_related (canonical_overlap_relation p identity.canonical))
            (sym a.canonical_eq)
          ∙ related in
        let (m, i, q) = overlap_matches-In c.target_identity found.entries entry there related' in
        let i' : In m c.matches = subst (In m) (sym a.matches_eq) i in
        (
          ap (λ (t : DebrisInfo). is_orphaned t.classification) (sym q)
              ∙ first_protected-none c.matches a.all_orphaned m i',
          not_command a.target_eq (a.no_command) m i',
          bound a m i' (entry_for_match-found found.entries m entry there q) q,
        )
      where
        not_command :
            {target : DebrisInfo}
            → c.target ≡ target
            → (head_match c.matches ≡ none) ⊎ (is_command (effective_kind target) ≡ false)
            → (m : OverlapSafetyMatch) → In m c.matches
            → is_command (effective_kind c.target) ≡ false
        not_command e (inl n) m i = absurd (head_match-none c.matches m i n)
        not_command e (inr n) m i = ap (λ (t : DebrisInfo). is_command (effective_kind t)) e ∙ n

        bound :
            {target : DebrisInfo}
            → Allowed fs lookup found.entries found.ambiguous target c
            → (m : OverlapSafetyMatch) → In m c.matches
            → FoundEntry found.entries m (entry_for_match found.entries m)
            → m.item ≡ item
            → HasObligation (item.tool ++ (0 ∷ identity.canonical)) c.obligations
        bound a m i (e, r, j, p) q =
            let same : e.identity ≡ identity = inl-injective e.identity identity (
              sym (
                All-In (Identified fs) found.entries (entries-Identified fs ctx evidence.items) e j)
              ∙ ap (canonical_existing_path_identity fs) (p ∙ ap (λ (t : DebrisInfo). t.path) q)
              ∙ resolved) in
            let (o, k, key) =
              gather-new lookup found.entries m e [] c.matches i r a.gathered a.gathered_eq in
            (
              o,
              subst (In o) (sym a.obligations_eq) (In-sort obligation_before a.gathered o k),
              key
                  ∙ ap (λ (t : DebrisInfo). t.tool ++ (0 ∷ e.identity.canonical)) q
                  ∙ ap (λ (d : PathIdentity). item.tool ++ (0 ∷ d.canonical)) same,
            )

    -- An item of agent state in the evidence whose own path does not resolve: for an allowed
    -- component of a plan made under a context that stays cancelled once it is, the item's path is
    -- relative, or it can be resolved but for names that are missing at its end, and neither as
    -- written nor as resolved is it, or does it contain or lie below, the target, as written or
    -- canonical.
    pub build_overlap_safety_plan-unresolved :
        (error : IdentityError)
        → canonical_existing_path_identity fs item.path ≡ inr error
        → (is_abs (clean (trim_space item.path)) ≡ false)
          ⊎ ((resolved : Text) × (resolve_within fs link_limit (clean (trim_space item.path))
                ≡ some resolved)
              × Unrelated c.target_identity.raw (clean (trim_space item.path))
              × Unrelated c.target_identity.canonical (clean (trim_space item.path))
              × Unrelated c.target_identity.raw resolved
              × Unrelated c.target_identity.canonical resolved)
    unfolding found
    build_overlap_safety_plan-unresolved error unresolved =
        let (live, _) = c-Built in
        let (target, _, a) = c-Allowed in
        ambiguous_may_overlap-disjoint fs c.target_identity item.path (
          first_ambiguous-none fs c.target_identity found.ambiguous a.none_ambiguous item
            (ambiguous_complete fs ctx stays evidence.items live item known agent error unresolved))
