-- ===== src/Cleaner/Overlap/Runtime/Selected.antt =====
-- internal/cleaner/overlap_safety_runtime.go: the targets that ApplyCleanupOverlapSafety selects.
use aibris.Prelude.{
  ℕ, ◌≡◌, refl, sym, subst, Text, List, [], ◌∷◌, map, true, none, some, inl, inr, if_either,
  if◌then◌else◌, In, All, Pairwise, Pairwise-sort_symm, is_empty, Option, ok, Bool-cases,
}
use aibris.Types.{DebrisInfo}
use aibris.Cleaner.Items.{FileSystem, ResolvesAbsolute}
use aibris.Cleaner.Targets.{normalize_targets}
use aibris.Cleaner.Targets.Merge.{IsAbsolute}
use aibris.Cleaner.Targets.Outer.{Apart, Apart-symm}
use aibris.Cleaner.Targets.Normalize.{key_of, normalize_targets-Apart}
use aibris.Cleaner.Overlap.{
  OverlapSafetyComponent, OverlapSafetyEvidence, OverlapSafetyRefusal, allowed_targets, is_allowed,
}
use aibris.Cleaner.Overlap.Entries.{Context}
use aibris.Cleaner.Overlap.Component.{Lookup}
use aibris.Cleaner.Overlap.Plan.{PlanResult, build_overlap_safety_plan}
use aibris.Cleaner.Overlap.Complete.{build_overlap_safety_plan-complete}
use aibris.Cleaner.Overlap.Rows.{LogicalInput}
use aibris.Cleaner.Overlap.Runtime.Selection.{
  Selection, selection_of, target_before, prepared_targets, apply_overlap_safety,
  default_logical_inputs,
}

module _ {ℓ} (P : DebrisInfo → Type ℓ) where
  allowed_targets-All :
      (components : List OverlapSafetyComponent)
      → All P (map (λ c. c.target) components)
      → All P (allowed_targets components)
  unfolding allowed_targets
  allowed_targets-All [] h = tt
  allowed_targets-All (c ∷ components) h =
      if_either (All P) (is_allowed c.refusal) _ _ (λ e. (h.0, allowed_targets-All components h.1))
        (λ e. allowed_targets-All components h.1)

allowed_targets-Pairwise {ℓ} :
    (R : DebrisInfo → DebrisInfo → Type ℓ) (components : List OverlapSafetyComponent)
    → Pairwise R (map (λ c. c.target) components)
    → Pairwise R (allowed_targets components)
unfolding allowed_targets
allowed_targets-Pairwise R [] h = tt
allowed_targets-Pairwise R (c ∷ components) h =
    if_either (Pairwise R) (is_allowed c.refusal) _ _
      (λ e. (
        allowed_targets-All (R c.target) components h.0,
        allowed_targets-Pairwise R components h.1,
      ))
      (λ e. allowed_targets-Pairwise R components h.1)

allowed_refusal :
    (refusal : Option OverlapSafetyRefusal) → is_allowed refusal ≡ true → refusal ≡ none
allowed_refusal none h = refl
allowed_refusal (some r) h = cc

-- A target has a component that is not refused.
abbrev pub HasAllowed : List OverlapSafetyComponent → DebrisInfo → Type 0
HasAllowed components target =
    (c : OverlapSafetyComponent) × In c components × (c.target ≡ target) × (c.refusal ≡ none)

allowed_targets-In :
    (components : List OverlapSafetyComponent) (target : DebrisInfo)
    → In target (allowed_targets components)
    → HasAllowed components target
unfolding allowed_targets
allowed_targets-In [] target i = absurd i
allowed_targets-In (c ∷ components) target i = elim (Bool-cases (is_allowed c.refusal)) [
  | inr e ↦ let (d, j, t, r) = allowed_targets-In components target (rw e at i) in (d, inr j, t, r)
  | inl e ↦ elim (rw e at i) [
    | inl q ↦ (c, inl refl, sym q, allowed_refusal c.refusal e)
    | inr k ↦ let (d, j, t, r) = allowed_targets-In components target k in (d, inr j, t, r)
  ]
]

module _ (fs : FileSystem) (resolves : ResolvesAbsolute fs) (targets : List DebrisInfo)
    (absolute : All IsAbsolute targets) where
  abbrev KeysApart : DebrisInfo → DebrisInfo → Type 0
  KeysApart a b = Apart (key_of fs a) (key_of fs b)

  prepared-Apart : Pairwise KeysApart (prepared_targets fs targets)
  unfolding prepared_targets
  prepared-Apart =
      Pairwise-sort_symm (target_before fs) KeysApart
        (λ a b. Apart-symm (key_of fs a) (key_of fs b)) (normalize_targets fs targets)
        (normalize_targets-Apart fs resolves targets absolute)

  module _ {R : Type 0} (ctx : Context) (decimal : ℕ → Text) (initial : OverlapSafetyEvidence)
      (lookup : Lookup R) (inputs : List LogicalInput) (selection : Selection) where
    -- Where overlap safety selects among absolute targets, no two selected ones have the same key or
    -- lie one below the other, each has a component of the plan that is not refused, and the evidence
    -- was complete.
    pub apply_overlap_safety-Apart :
        apply_overlap_safety fs ctx decimal initial lookup targets inputs ≡ ok selection
        → Pairwise (λ a b. Apart (key_of fs a) (key_of fs b)) selection.targets
          × ((t : DebrisInfo) → In t selection.targets → HasAllowed selection.plan t)
          × (initial.complete ≡ true)
    unfolding apply_overlap_safety
    apply_overlap_safety-Apart h =
        after
          (if is_empty inputs
            then default_logical_inputs (prepared_targets fs targets) initial.items
            else inputs)
          (build_overlap_safety_plan fs ctx initial (prepared_targets fs targets) lookup) refl h
      where
        after :
            (rows : List LogicalInput) (r : PlanResult)
            → build_overlap_safety_plan fs ctx initial (prepared_targets fs targets) lookup ≡ r
            → selection_of fs decimal rows r ≡ ok selection
            → Pairwise (λ a b. Apart (key_of fs a) (key_of fs b)) selection.targets
              × ((t : DebrisInfo) → In t selection.targets → HasAllowed selection.plan t)
              × (initial.complete ≡ true)
        after rows (inr error) q e = cc
        after rows (inl plan) q e =
            let same_plan : plan ≡ selection.plan = cc in
            let same_targets : allowed_targets plan ≡ selection.targets = cc in
            let (_, complete, _, covers) =
              build_overlap_safety_plan-complete fs ctx initial (prepared_targets fs targets) lookup
                plan q in
            (
              subst (Pairwise KeysApart) same_targets (
                  allowed_targets-Pairwise KeysApart plan
                    (subst (Pairwise KeysApart) (sym covers) prepared-Apart)),
              (λ t i.
                  subst (λ p. HasAllowed p t) same_plan
                    (allowed_targets-In plan t (subst (In t) (sym same_targets) i))),
              complete,
            )
