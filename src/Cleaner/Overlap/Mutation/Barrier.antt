-- ===== src/Cleaner/Overlap/Mutation/Barrier.antt =====
-- internal/cleaner/overlap_mutation.go: ValidateBeforeMutationWithReport, as a whole.
use aibris.Prelude.{
  ℕ, ◌+◌, ◌<◌, ◌≡◌, List, [], ◌∷◌, ◌++◌, true, false, none, inl, In, length, ok, >>=-eq-ok,
  refuse_if-eq-ok, arith,
}
use aibris.Cleaner.Overlap.{AgentStateObligation, OverlapSafetyComponent, OverlapSafetyEvidence}
use aibris.Cleaner.Overlap.Identity.{identity_matches, identity_unchanged}
use aibris.Cleaner.Overlap.Component.{Lookup, obligation_key}
use aibris.Cleaner.Overlap.Plan.{build_overlap_safety_plan}
use aibris.Cleaner.Overlap.Mutation.{
  World, unless_refused, only_component, register_all, revalidate_all, recheck_all, merged_or_block,
  validate_current, validate_before_mutation,
}
use aibris.Cleaner.Overlap.Mutation.Report.{Validation, validation_for}
use aibris.Cleaner.Overlap.Mutation.Merge.{merged_obligations}
use aibris.Cleaner.Overlap.Mutation.Merged.{merged_obligations-HasProvider}
use aibris.Cleaner.Overlap.Mutation.Safety.{
  not-false, unless_refused-ok, only_component-ok, merged_or_block-ok, Registered, IsOrphaned,
  register_all-Bound, revalidate_all-IsOrphaned, recheck_all-unchanged,
}

module _ {R : Type 0} (world : World R) (lookup : Lookup R) where
  -- What was found of an obligation: some merged obligation has its key and its provider; the file
  -- of that one was unchanged before the revalidations end, which is at step `last`, and after it,
  -- and the provider's revalidator called its entry orphaned.
  pub record Revalidated (last : ℕ) (o : AgentStateObligation) : Type 0 where
    pub merged : AgentStateObligation
    pub key_eq : obligation_key merged ≡ obligation_key o
    pub provider_eq : merged.provider_id ≡ o.provider_id
    pub revalidator : R
    pub answers : Registered world lookup merged revalidator
    pub orphaned : IsOrphaned world lookup merged revalidator
    pub before : ℕ
    pub before_last : before < last
    pub unchanged_before : identity_unchanged (world.disk before) merged.path_identity ≡ true
    pub after : ℕ
    pub after_last : last < after
    pub unchanged_after : identity_unchanged (world.disk after) merged.path_identity ≡ true

  -- What the refreshed component and the checks behind it show, for a number n of merged
  -- obligations. The disk is read at step 0 for the plan, at 1 to n where each of them is registered,
  -- at n + 1 for the target once all are revalidated, and from n + 2 on where each is read again. The
  -- context is read at the start, before each revalidation (1 to n) and at the end (n + 1).
  pub record Current (component current : OverlapSafetyComponent) : Type 0 where
    pub allowed : current.refusal ≡ none
    pub same_target : identity_matches component.target_identity current.target_identity ≡ true
    pub merged : List AgentStateObligation
    pub merged_eq : merged_obligations component.obligations current.obligations ≡ inl merged
    pub target_unchanged :
        identity_unchanged (world.disk (1 + length merged)) component.target_identity ≡ true
    pub revalidated :
        (o : AgentStateObligation)
        → In o (component.obligations ++ current.obligations)
        → Revalidated (1 + length merged) o
    pub live_at_end : world.ctx (1 + length merged) ≡ false

  validate_current-Current :
      (component : OverlapSafetyComponent) (report : Validation) (current : OverlapSafetyComponent)
      (passed : Validation)
      → validate_current world lookup component report current ≡ ok passed
      → Current component current
  unfolding validate_current
  validate_current-Current component report current passed h =
      let (_, u, h1) = >>=-eq-ok (unless_refused current.refusal _) _ h in
      let (s, h2) = refuse_if-eq-ok _ _ _ h1 in
      let (os, m, h3) =
        >>=-eq-ok
          (merged_or_block component.target.path report
            (merged_obligations component.obligations current.obligations))
          _ h2 in
      let (registered, g, h4) =
        >>=-eq-ok (register_all world lookup (validation_for os) 1 os) _ h3 in
      let (report', v, h5) =
        >>=-eq-ok (revalidate_all world component.target.path 1 registered (validation_for os)) _
          h4 in
      let (t, h6) = refuse_if-eq-ok _ _ _ h5 in
      let (_, c, h7) = >>=-eq-ok (recheck_all world report' (2 + length os) os) _ h6 in
      let (live, _) = refuse_if-eq-ok _ _ _ h7 in
      record {
        allowed = unless_refused-ok current.refusal _ u;
        same_target = not-false _ s;
        merged = os;
        merged_eq = merged_or_block-ok component.target.path report _ os m;
        target_unchanged = not-false _ t;
        live_at_end = live;
        revalidated = λ o i.
            let (x, j, k, p) =
              merged_obligations-HasProvider component.obligations current.obligations os
                (merged_or_block-ok component.target.path report _ os m) o i in
            let b = register_all-Bound world lookup (validation_for os) 1 os registered g x j in
            let (later, n, w) =
              recheck_all-unchanged world lookup report' (2 + length os) os c x j in
            record {
              merged = x;
              key_eq = k;
              provider_eq = p;
              revalidator = b.revalidator;
              answers = b.answers;
              orphaned =
                  revalidate_all-IsOrphaned world lookup component.target.path 1 registered
                    (validation_for os) report' v x b.revalidator b.listed;
              before = b.step;
              before_last = omega (arith, b.early);
              unchanged_before = b.unchanged;
              after = later;
              after_last = omega (arith, n);
              unchanged_after = w;
            };
      }

  -- Where the barrier lets a mutation pass, the context was live at the start and at the end, the
  -- component was allowed and so is the one component of the plan from refreshed evidence, the
  -- target was still the same file once the revalidations had ended, and every obligation, planned
  -- or refreshed, has been revalidated as orphaned by its provider, on a file that was unchanged
  -- before they ended and again after.
  pub validate_before_mutation-Current :
      (component : OverlapSafetyComponent) (refreshed : OverlapSafetyEvidence) (passed : Validation)
      → validate_before_mutation world lookup component refreshed ≡ ok passed
      → (world.ctx 0 ≡ false)
        × (component.refusal ≡ none)
        × ((current : OverlapSafetyComponent) × (build_overlap_safety_plan
                (world.disk 0)
                world.planning
                refreshed
                (component.target ∷ [])
                lookup
              ≡ inl (current ∷ []))
            × Current component current)
  unfolding validate_before_mutation
  validate_before_mutation-Current component refreshed passed h =
      let plan =
        build_overlap_safety_plan (world.disk 0) world.planning refreshed (component.target ∷ [])
          lookup in
      let report = validation_for component.obligations in
      let (live, h1) = refuse_if-eq-ok _ _ _ h in
      let (_, u, h2) = >>=-eq-ok (unless_refused component.refusal _) _ h1 in
      let (current, c, h3) = >>=-eq-ok (only_component component.target.path report plan) _ h2 in
      (
        live,
        unless_refused-ok component.refusal _ u,
        (
          current,
          only_component-ok component.target.path report plan current c,
          validate_current-Current component report current passed h3,
        ),
      )
