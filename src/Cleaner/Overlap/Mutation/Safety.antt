-- ===== src/Cleaner/Overlap/Mutation/Safety.antt =====
-- internal/cleaner/overlap_mutation.go: what holds where the barrier lets a mutation pass.
use aibris.Prelude.{
  ℕ, suc, ◌+◌, ◌≤◌, ◌<◌, ◌≡◌, refl, sym, subst, Text, List, [], ◌∷◌, Bool, true, false, not, Option,
  none, some, ◌⊎◌, inl, inr, In, length, text_eq, text_eq_iff, Result, ok, >>=-eq-ok,
  refuse_if-eq-ok, arith, if_either,
}
use aibris.Types.{EntryClass, is_orphaned}
use aibris.Cleaner.Overlap.{AgentStateObligation, OverlapSafetyComponent, OverlapSafetyRefusal}
use aibris.Cleaner.Overlap.Identity.{identity_unchanged}
use aibris.Cleaner.Overlap.Component.{Registration, Lookup, lookup_agent_state_revalidator}
use aibris.Cleaner.Overlap.Plan.{PlanError}
use aibris.Cleaner.Overlap.Mutation.{
  Blocked, World, unless_refused, only_component, checked_provider, checked_registration,
  register_all, checked_class, revalidate_all, recheck_all, merged_or_block,
}
use aibris.Cleaner.Overlap.Mutation.Report.{Validation, pass_obligation}

pub not-false : (b : Bool) → not b ≡ false → b ≡ true
not-false b h = ground arith

before_last : (step n : ℕ) → step < step + suc n
before_last step n = omega arith

before_end : (step n later : ℕ) → later < suc step + n → later < step + suc n
before_end step n later h = omega (arith, h)

orphaned_class : (c : EntryClass) → not (is_orphaned c) ≡ false → c ≡ EntryClass.orphaned
orphaned_class EntryClass.orphaned h = refl
orphaned_class EntryClass.live h = cc
orphaned_class EntryClass.undetermined h = cc
orphaned_class EntryClass.unset h = cc
orphaned_class (EntryClass.other name) h = cc

pub unless_refused-ok :
    (refusal : Option OverlapSafetyRefusal) (blocked : OverlapSafetyRefusal → Blocked)
    → unless_refused refusal blocked ≡ ok tt
    → refusal ≡ none
unless_refused-ok none blocked h = refl
unless_refused-ok (some refusal) blocked h = cc

pub only_component-ok :
    (path : Text) (report : Validation) (r : List OverlapSafetyComponent ⊎ PlanError)
    (current : OverlapSafetyComponent)
    → only_component path report r ≡ ok current
    → r ≡ inl (current ∷ [])
only_component-ok path report (inr error) current h = cc
only_component-ok path report (inl []) current h = cc
only_component-ok path report (inl (c ∷ [])) current h = cc
only_component-ok path report (inl (c ∷ d ∷ cs)) current h = cc

pub merged_or_block-ok :
    (path : Text) (report : Validation) (r : List AgentStateObligation ⊎ (Text × Text))
    (obligations : List AgentStateObligation)
    → merged_or_block path report r ≡ ok obligations
    → r ≡ inl obligations
merged_or_block-ok path report (inl os) obligations h = cc
merged_or_block-ok path report (inr (a, b)) obligations h = cc

module _ {R : Type 0} (world : World R) (lookup : Lookup R) where
  -- The revalidator that answers for an obligation.
  pub record Registered (o : AgentStateObligation) (revalidator : R) : Type 0 where
    pub registration : Registration R
    pub lookup_eq : lookup_agent_state_revalidator lookup o.tool ≡ some registration
    pub revalidator_eq : registration.revalidator ≡ some revalidator
    pub provider_eq : registration.provider_id ≡ o.provider_id

  checked_provider-ok :
      (o : AgentStateObligation) (report : Validation) (provider : Text) (r : Option R)
      (revalidator : R)
      → checked_provider o report provider r ≡ ok revalidator
      → (r ≡ some revalidator) × (provider ≡ o.provider_id)
  checked_provider-ok o report provider none revalidator h = cc
  checked_provider-ok o report provider (some v) revalidator h =
      if_either
        (λ (x : Result Blocked R).
          x ≡ ok revalidator → (some v ≡ some revalidator) × (provider ≡ o.provider_id))
        (not (text_eq provider o.provider_id)) _ _ (λ e q. cc)
        (λ e q. (same v q, (text_eq_iff provider o.provider_id).0 (not-false _ e))) h
    where
      same :
          (a : R) → ◌≡◌ {A = Result Blocked R} (ok a) (ok revalidator) → some a ≡ some revalidator
      same a q = cc

  checked_registration-ok :
      (o : AgentStateObligation) (report : Validation) (revalidator : R)
      → checked_registration o report (lookup_agent_state_revalidator lookup o.tool)
        ≡ ok revalidator
      → Registered o revalidator
  checked_registration-ok o report revalidator h =
      after (lookup_agent_state_revalidator lookup o.tool) refl h
    where
      after :
          (found : Option (Registration R))
          → lookup_agent_state_revalidator lookup o.tool ≡ found
          → checked_registration o report found ≡ ok revalidator
          → Registered o revalidator
      after none q e = cc
      after (some registration) q e =
          let (r, p) =
            checked_provider-ok o report registration.provider_id registration.revalidator
              revalidator e in
          record { registration = registration; lookup_eq = q; revalidator_eq = r; provider_eq = p }

  -- An obligation that was registered: its file had not changed by then, and its revalidator.
  pub record Bound (last : ℕ) (registered : List (AgentStateObligation × R))
      (o : AgentStateObligation) : Type 0 where
    pub revalidator : R
    pub listed : In (o, revalidator) registered
    pub answers : Registered o revalidator
    pub step : ℕ
    pub early : step < last
    pub unchanged : identity_unchanged (world.disk step) o.path_identity ≡ true

  pub register_all-Bound :
      (report : Validation) (step : ℕ) (os : List AgentStateObligation)
      (registered : List (AgentStateObligation × R))
      → register_all world lookup report step os ≡ ok registered
      → (o : AgentStateObligation) → In o os
      → Bound (step + length os) registered o
  unfolding register_all
  register_all-Bound report step [] registered h o i = absurd i
  register_all-Bound report step (x ∷ os) registered h o i =
      let (same, h1) = refuse_if-eq-ok _ _ _ h in
      let (v, q, h2) =
        >>=-eq-ok (checked_registration x report (lookup_agent_state_revalidator lookup x.tool)) _
          h1 in
      let (rest, t, h3) = >>=-eq-ok (register_all world lookup report (suc step) os) _ h2 in
      let listed : (x, v) ∷ rest ≡ registered = cc in
      elim i [
        | inl e ↦ record {
          revalidator = v;
          listed = subst (In (o, v)) listed (inl (λ k. (e k, v)));
          answers = subst (λ y. Registered y v) (sym e) (checked_registration-ok x report v q);
          step = step;
          early = before_last step (length os);
          unchanged =
              subst
                (λ (y : AgentStateObligation).
                  identity_unchanged (world.disk step) y.path_identity ≡ true)
                (sym e) (not-false _ same);
        }
        | inr j ↦
            let b = register_all-Bound report (suc step) os rest t o j in
            record {
              revalidator = b.revalidator;
              listed = subst (In (o, b.revalidator)) listed (inr b.listed);
              answers = b.answers;
              step = b.step;
              early = before_end step (length os) b.step b.early;
              unchanged = b.unchanged;
            }
      ]

  -- The revalidator of an obligation calls its entry orphaned, without an error.
  abbrev pub IsOrphaned : AgentStateObligation → R → Type 0
  IsOrphaned o revalidator = world.revalidate revalidator o.entry_path ≡ (EntryClass.orphaned, none)

  checked_class-ok :
      (o : AgentStateObligation) (report : Validation) (answer : EntryClass × Option Text)
      (class : EntryClass)
      → checked_class o report answer ≡ ok class
      → answer ≡ (EntryClass.orphaned, none)
  checked_class-ok o report (c, some message) class h = cc
  checked_class-ok o report (c, none) class h =
      let (f, _) = refuse_if-eq-ok (not (is_orphaned c)) _ _ h in λ k. (orphaned_class c f k, none)

  pub revalidate_all-IsOrphaned :
      (path : Text) (reads : ℕ) (registered : List (AgentStateObligation × R))
      (report passed : Validation)
      → revalidate_all world path reads registered report ≡ ok passed
      → (o : AgentStateObligation) (v : R) → In (o, v) registered
      → IsOrphaned o v
  unfolding revalidate_all
  revalidate_all-IsOrphaned path reads [] report passed h o v i = absurd i
  revalidate_all-IsOrphaned path reads ((x, w) ∷ registered) report passed h o v i =
      let (_, h1) = refuse_if-eq-ok _ _ _ h in
      let (c, q, h2) = >>=-eq-ok (checked_class x report (world.revalidate w x.entry_path)) _ h1 in
      elim i [
        | inl e ↦
            subst (λ (p : AgentStateObligation × R). IsOrphaned p.0 p.1) (sym e)
              (checked_class-ok x report (world.revalidate w x.entry_path) c q)
        | inr j ↦
            revalidate_all-IsOrphaned path (suc reads) registered (pass_obligation x c report)
              passed h2 o v j
      ]

  -- The file of an obligation has not changed at some step from `step` on.
  abbrev pub UnchangedFrom : ℕ → AgentStateObligation → Type 0
  UnchangedFrom step o =
      (later : ℕ) × (step ≤ later) × (identity_unchanged (world.disk later) o.path_identity ≡ true)

  pub recheck_all-unchanged :
      (report : Validation) (step : ℕ) (os : List AgentStateObligation)
      → recheck_all world report step os ≡ ok tt
      → (o : AgentStateObligation) → In o os
      → UnchangedFrom step o
  unfolding recheck_all
  recheck_all-unchanged report step [] h o i = absurd i
  recheck_all-unchanged report step (x ∷ os) h o i =
      let (same, h1) = refuse_if-eq-ok _ _ _ h in
      elim i [
        | inl e ↦ (
          step,
          omega arith,
          subst
              (λ (y : AgentStateObligation).
                identity_unchanged (world.disk step) y.path_identity ≡ true)
              (sym e) (not-false _ same),
        )
        | inr j ↦
            let (later, n, u) = recheck_all-unchanged report (suc step) os h1 o j in
            (later, omega (arith, n), u)
      ]
