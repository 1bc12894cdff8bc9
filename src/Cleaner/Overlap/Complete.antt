-- ===== src/Cleaner/Overlap/Complete.antt =====
-- internal/cleaner/overlap.go: a plan is made from complete evidence and has one component for each
-- candidate.
use aibris.Prelude.{
  ℕ, suc, ◌≡◌, refl, sym, ap, ◌∙◌, List, [], ◌∷◌, map, true, false, ◌||◌, ◌==◌, not, inl, inr,
  if_either, arith,
}
use aibris.Types.{DebrisInfo}
use aibris.Cleaner.Items.{FileSystem}
use aibris.Cleaner.Overlap.{OverlapSafetyComponent, OverlapSafetyEvidence}
use aibris.Cleaner.Overlap.Entries.{
  Context, AgentStateEntry, Entries, canonical_agent_state_entries,
}
use aibris.Cleaner.Overlap.Component.{
  Lookup, with_obligations, judge_classes, judge_matches, build_overlap_safety_component,
}
use aibris.Cleaner.Overlap.Plan.{
  PlanResult, before_plan, plan_components, build_overlap_safety_plan,
}

module _ {R : Type 0} (lookup : Lookup R) (entries : List AgentStateEntry) where
  with_obligations-target :
      (c : OverlapSafetyComponent) → (with_obligations lookup entries c).target ≡ c.target
  unfolding with_obligations
  with_obligations-target c = ground arith

  judge_classes-target :
      (c : OverlapSafetyComponent) → (judge_classes lookup entries c).target ≡ c.target
  unfolding judge_classes
  judge_classes-target c = ground (arith, with_obligations-target c)

  judge_matches-target :
      (c : OverlapSafetyComponent) → (judge_matches lookup entries c).target ≡ c.target
  unfolding judge_matches
  judge_matches-target c = ground (arith, judge_classes-target c)

  build-target :
      (fs : FileSystem) (target : DebrisInfo) (ambiguous : List DebrisInfo)
      → (build_overlap_safety_component fs target entries ambiguous lookup).target ≡ target
  unfolding build_overlap_safety_component
  build-target fs target ambiguous = grind (arith, judge_matches-target)

module _ {R : Type 0} (fs : FileSystem) (ctx : Context) (found : Entries) (lookup : Lookup R) where
  abbrev IfTargets : List DebrisInfo → PlanResult → Type 0
  IfTargets candidates r =
      (cs : List OverlapSafetyComponent) → r ≡ inl cs → map (λ c. c.target) cs ≡ candidates

  before_plan-targets :
      (x : DebrisInfo) (candidates : List DebrisInfo) (r : PlanResult)
      → IfTargets candidates r
      → IfTargets
          (x ∷ candidates)
          (before_plan (build_overlap_safety_component fs x found.entries found.ambiguous lookup) r)
  before_plan-targets x candidates (inr error) h cs e = cc
  before_plan-targets x candidates (inl rest) h cs e =
      let built = build_overlap_safety_component fs x found.entries found.ambiguous lookup in
      let eq : built ∷ rest ≡ cs = cc in
      let tail : map (λ c. c.target) rest ≡ candidates = h rest refl in
      let head : built.target ≡ x = build-target lookup found.entries fs x found.ambiguous in
      sym (ap (map (λ c. c.target)) eq) ∙ (λ i. head i ∷ tail i)

  plan_components-targets :
      (reads : ℕ) (candidates : List DebrisInfo)
      → IfTargets candidates (plan_components fs ctx reads found lookup candidates)
  unfolding plan_components
  plan_components-targets reads [] = λ cs e. ground arith
  plan_components-targets reads (x ∷ candidates) =
      if_either (IfTargets (x ∷ candidates)) (ctx reads) _ _ (λ c cs e. cc)
        λ live. before_plan-targets x candidates _ (plan_components-targets (suc reads) candidates)

module _ {R : Type 0} (fs : FileSystem) (ctx : Context) (evidence : OverlapSafetyEvidence)
    (candidates : List DebrisInfo) (lookup : Lookup R)
    (components : List OverlapSafetyComponent) where
  abbrev FromEvidence : PlanResult → Type 0
  FromEvidence r =
      r ≡ inl components
      → (ctx 0 ≡ false)
        × (evidence.complete ≡ true)
        × (evidence.provider_errors ≡ 0)
        × (map (λ c. c.target) components ≡ candidates)

  -- A plan is made only under a live context, from evidence that is complete and without provider
  -- errors, and then its components are those of the candidates, one for each and in their order.
  pub build_overlap_safety_plan-complete :
      build_overlap_safety_plan fs ctx evidence candidates lookup ≡ inl components
      → (ctx 0 ≡ false)
        × (evidence.complete ≡ true)
        × (evidence.provider_errors ≡ 0)
        × (map (λ c. c.target) components ≡ candidates)
  unfolding build_overlap_safety_plan
  build_overlap_safety_plan-complete =
      let found = canonical_agent_state_entries fs ctx 1 evidence.items in
      if_either FromEvidence (ctx 0) _ _ (λ stop e. cc)
        λ live.
          if_either FromEvidence (not evidence.complete || not (evidence.provider_errors == 0)) _ _
            (λ partial e. cc)
            λ full e. (
              live,
              ground arith,
              ground arith,
              plan_components-targets fs ctx found lookup found.reads candidates components e,
            )
