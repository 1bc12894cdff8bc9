-- ===== src/Cleaner/Overlap/Obligations.antt =====
-- The component of one target: if it is not refused, then each overlapping entry is orphaned and is
-- bound to an obligation, and no ambiguous item may overlap.
use aibris.Prelude.{
  ◌≡◌, refl, sym, ap, ◌∙◌, subst, List, [], ◌∷◌, true, false, none, some, ◌⊎◌, inl, inr, if_either,
  In, arith, Bool-cases, Option-cases, Sum-cases, false≢true, sort,
}
use aibris.Types.{DebrisInfo, is_orphaned, is_command}
use aibris.Cleaner.Items.{FileSystem, effective_kind}
use aibris.Cleaner.Overlap.{
  PathIdentity, OverlapSafetyMatch, AgentStateObligation, OverlapSafetyComponent,
}
use aibris.Cleaner.Overlap.Identity.{
  canonical_existing_path_identity, canonical_overlap_relation, is_related, disjoint,
  ambiguous_may_overlap, link_limit,
}
use aibris.Cleaner.Overlap.Entries.{AgentStateEntry}
use aibris.Cleaner.Overlap.Component.{
  Lookup, first_ambiguous, overlap_matches, first_protected, obligation_before, gather_obligations,
  with_obligations, judge_classes, judge_matches, head_match, new_component,
  build_overlap_safety_component,
}
use aibris.Cleaner.Overlap.Evidence.{Result-cases}

pub first_protected-none :
    (matches : List OverlapSafetyMatch)
    → first_protected matches ≡ none
    → (found : OverlapSafetyMatch) → In found matches
    → is_orphaned found.item.classification ≡ true
unfolding first_protected
first_protected-none [] h found i = absurd i
first_protected-none (x ∷ matches) h found i =
    elim (Bool-cases (is_orphaned x.item.classification)) [
      | inl o ↦ elim i [
        | inl q ↦ ap (λ (m : OverlapSafetyMatch). is_orphaned m.item.classification) q ∙ o
        | inr j ↦ first_protected-none matches (rw o at h) found j
      ]
      | inr o ↦ absurd (some_ne (rw o at h))
    ]
  where
    some_ne : some x ≡ none → ⊥
    some_ne e = cc

abbrev pub HasMatch : DebrisInfo → List OverlapSafetyMatch → Type 0
HasMatch item matches = (found : OverlapSafetyMatch) × In found matches × (found.item ≡ item)

pub overlap_matches-In :
    (target : PathIdentity) (entries : List AgentStateEntry) (entry : AgentStateEntry)
    → In entry entries
    → is_related (canonical_overlap_relation target.canonical entry.identity.canonical) ≡ true
    → HasMatch entry.item (overlap_matches target entries)
unfolding overlap_matches
overlap_matches-In target [] entry i r = absurd i
overlap_matches-In target (x ∷ entries) entry (inl q) r =
    elim (Option-cases (canonical_overlap_relation target.canonical x.identity.canonical)) [
      | inl n ↦
          let r' : is_related (canonical_overlap_relation target.canonical x.identity.canonical)
              ≡ true =
            ap
              (λ (e : AgentStateEntry).
                is_related (canonical_overlap_relation target.canonical e.identity.canonical))
              (sym q)
            ∙ r in
          absurd (false≢true (ap is_related (sym n) ∙ r'))
      | inr (relation, n) ↦
          rw (n, overlap_matches)
            (
              record { item = x.item; relation = relation },
              inl refl,
              ap (λ (e : AgentStateEntry). e.item) (sym q),
            )
    ]
overlap_matches-In target (x ∷ entries) entry (inr j) r =
    let (found, k, m) = overlap_matches-In target entries entry j r in
    elim (Option-cases (canonical_overlap_relation target.canonical x.identity.canonical)) [
      | inl n ↦ rw (n, overlap_matches) (found, k, m)
      | inr (relation, n) ↦ rw (n, overlap_matches) (found, inr k, m)
    ]

first_ambiguous-step :
    (fs : FileSystem) (target : PathIdentity) (x : DebrisInfo) (items : List DebrisInfo)
    → first_ambiguous fs target (x ∷ items) ≡ none
    → (ambiguous_may_overlap fs link_limit target x.path ≡ disjoint)
      × (first_ambiguous fs target items ≡ none)
unfolding first_ambiguous
first_ambiguous-step fs target x items h = ground arith

pub first_ambiguous-none :
    (fs : FileSystem) (target : PathIdentity) (items : List DebrisInfo)
    → first_ambiguous fs target items ≡ none
    → (item : DebrisInfo) → In item items
    → ambiguous_may_overlap fs link_limit target item.path ≡ disjoint
first_ambiguous-none fs target [] h item i = absurd i
first_ambiguous-none fs target (x ∷ items) h item (inl q) =
    ap (λ (t : DebrisInfo). ambiguous_may_overlap fs link_limit target t.path) q
    ∙ (first_ambiguous-step fs target x items h).0
first_ambiguous-none fs target (x ∷ items) h item (inr j) =
    first_ambiguous-none fs target items (first_ambiguous-step fs target x items h).1 item j

-- What the tests on the matches leave, if they do not refuse.
record Judged {R : Type 0} (lookup : Lookup R) (entries : List AgentStateEntry)
    (component result : OverlapSafetyComponent) : Type 0 where
  all_orphaned : first_protected component.matches ≡ none
  no_command :
      (head_match component.matches ≡ none) ⊎ (is_command (effective_kind component.target) ≡ false)
  gathered : List AgentStateObligation
  gathered_eq : gather_obligations lookup entries [] component.matches ≡ inl gathered
  result_eq : result ≡ record component { obligations = sort obligation_before gathered }

module _ {R : Type 0} (lookup : Lookup R) (entries : List AgentStateEntry)
    (component : OverlapSafetyComponent) where
  -- A result that is not refused has been judged.
  abbrev IfAllowed : (OverlapSafetyComponent → Type 0) → OverlapSafetyComponent → Type 0
  IfAllowed P result = result.refusal ≡ none → P result

  judge_classes-allowed :
      ((head_match component.matches ≡ none)
        ⊎ (is_command (effective_kind component.target) ≡ false))
      → IfAllowed (Judged lookup entries component) (judge_classes lookup entries component)
  unfolding judge_classes with_obligations
  judge_classes-allowed c = elim (Option-cases (first_protected component.matches)) [
    | inr (found, n) ↦ rw (n, judge_classes) (λ e. cc)
    | inl n ↦ elim (Sum-cases (gather_obligations lookup entries [] component.matches)) [
      | inr (found, m) ↦ rw (n, judge_classes, m, with_obligations) (λ e. cc)
      | inl (os, m) ↦
          rw (n, judge_classes, m, with_obligations)
            λ e. record {
              all_orphaned = n;
              no_command = c;
              gathered = os;
              gathered_eq = m;
              result_eq = refl;
            }
    ]
  ]

  judge_matches-allowed :
      IfAllowed (Judged lookup entries component) (judge_matches lookup entries component)
  unfolding judge_matches
  judge_matches-allowed = elim (Option-cases (head_match component.matches)) [
    | inl n ↦ rw (n, judge_matches) (judge_classes-allowed (inl n))
    | inr (found, n) ↦
        rw (n, judge_matches)
          (if_either (IfAllowed (Judged lookup entries component))
            (is_command (effective_kind component.target)) _ _ (λ c e. cc)
            λ c. judge_classes-allowed (inr c))
  ]

-- What an allowed component of one target guarantees.
module _ {R : Type 0} (fs : FileSystem) (lookup : Lookup R) (entries : List AgentStateEntry)
    (ambiguous : List DebrisInfo) (target : DebrisInfo) where
  pub record Allowed (result : OverlapSafetyComponent) : Type 0 where
    pub target_eq : result.target ≡ target
    pub resolved : canonical_existing_path_identity fs target.path ≡ inl result.target_identity
    pub canonical_eq : result.canonical_path ≡ result.target_identity.canonical
    pub none_ambiguous : first_ambiguous fs result.target_identity ambiguous ≡ none
    pub matches_eq : result.matches ≡ overlap_matches result.target_identity entries
    pub all_orphaned : first_protected result.matches ≡ none
    pub no_command :
        (head_match result.matches ≡ none) ⊎ (is_command (effective_kind target) ≡ false)
    pub gathered : List AgentStateObligation
    pub gathered_eq : gather_obligations lookup entries [] result.matches ≡ inl gathered
    pub obligations_eq : result.obligations ≡ sort obligation_before gathered

  abbrev BuiltAllowed : OverlapSafetyComponent → Type 0
  BuiltAllowed result = result.refusal ≡ none → Allowed result

  pub build-Allowed :
      BuiltAllowed (build_overlap_safety_component fs target entries ambiguous lookup)
  unfolding build_overlap_safety_component
  build-Allowed = elim (Result-cases fs target.path) [
    | inr (error, q) ↦ rw (q, build_overlap_safety_component) (λ e. cc)
    | inl (identity, q) ↦ elim (Option-cases (first_ambiguous fs identity ambiguous)) [
      | inr (found, n) ↦ rw (q, build_overlap_safety_component, n) (λ e. cc)
      | inl n ↦
          rw (q, build_overlap_safety_component, n)
            λ e.
              let j =
                judge_matches-allowed lookup entries
                  (record (new_component target) {
                    canonical_path = identity.canonical;
                    target_identity = identity;
                    matches = overlap_matches identity entries;
                  })
                  e in
              subst Allowed (sym j.result_eq) (record {
                target_eq = refl;
                resolved = q;
                canonical_eq = refl;
                none_ambiguous = n;
                matches_eq = refl;
                all_orphaned = j.all_orphaned;
                no_command = j.no_command;
                gathered = j.gathered;
                gathered_eq = j.gathered_eq;
                obligations_eq = refl;
              })
    ]
  ]
