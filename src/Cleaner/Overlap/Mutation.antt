-- ===== src/Cleaner/Overlap/Mutation.antt =====
-- internal/cleaner/overlap_mutation.go: the barrier before a mutation. The error carries the report
-- that the source returns with it.
pub mod Report
pub mod Merge
pub mod Examples
pub mod Errors
pub mod Barrier
pub mod Safety
pub mod Merged
use aibris.Prelude.{
  ℕ, zero, suc, ◌+◌, ◌==◌, Text, List, [], ◌∷◌, Bool, true, false, not, Option, none, some, ◌⊎◌,
  inl, inr, if◌then◌else◌, text_eq, Result, ok, err, ◌>>=◌, ◌>>◌, refuse_if, wrap, length,
}
use aibris.Types.{EntryClass, is_orphaned}
use aibris.Cleaner.Items.{FileSystem}
use aibris.Cleaner.Overlap.{
  OverlapSafetyRefusal, AgentStateObligation, OverlapSafetyComponent, OverlapSafetyEvidence,
  OverlapSafetyReason,
}
use aibris.Cleaner.Overlap.Identity.{identity_matches, identity_unchanged}
use aibris.Cleaner.Overlap.Entries.{Context}
use aibris.Cleaner.Overlap.Component.{
  Registration, Lookup, lookup_agent_state_revalidator, protected_entry_class,
}
use aibris.Cleaner.Overlap.Plan.{PlanError, build_overlap_safety_plan}
use aibris.Cleaner.Overlap.Mutation.Report.{
  MutationError, Validation, validation_for, blocked_at, block_obligation, pass_obligation,
  refusal_blocking_path, block_refused,
}
use aibris.Cleaner.Overlap.Mutation.Merge.{merged_obligations}

-- A refused mutation: the report and the error.
pub record Blocked : Type 0 where
  pub report : Validation
  pub error : MutationError

abbrev pub block : Text → Validation → MutationError → Blocked
block path report error = record { report = blocked_at path error report; error = error }

abbrev pub block_at_obligation :
    AgentStateObligation → EntryClass → Validation → MutationError → Blocked
block_at_obligation obligation class report error = record {
  report = block_obligation obligation class error report;
  error = error;
}

-- What happens around one call: the disk at each step, whether the plan sees a cancelled context,
-- whether the function's own reads do, and what revalidators answer.
pub record World (R : Type 0) : Type 0 where
  pub disk : ℕ → FileSystem
  pub planning : Context
  pub ctx : Context
  pub revalidate : R → Text → EntryClass × Option Text

abbrev pub unless_refused :
    Option OverlapSafetyRefusal → (OverlapSafetyRefusal → Blocked) → Result Blocked (Unit {0})
unless_refused none blocked = ok tt
unless_refused (some refusal) blocked = err (blocked refusal)

abbrev pub only_component :
    Text
    → Validation
    → List OverlapSafetyComponent ⊎ PlanError
    → Result Blocked OverlapSafetyComponent
only_component path report (inr error) = err (block path report (MutationError.plan_failed error))
only_component path report (inl []) = err (block path report MutationError.component_unavailable)
only_component path report (inl (component ∷ [])) = ok component
only_component path report (inl (component ∷ _ ∷ _)) =
    err (block path report MutationError.component_unavailable)

abbrev pub checked_provider :
    {R : Type 0} → AgentStateObligation → Validation → Text → Option R → Result Blocked R
checked_provider obligation report provider_id none =
    err (block_at_obligation obligation EntryClass.unset report MutationError.no_revalidator)
checked_provider obligation report provider_id (some revalidator) =
    if not (text_eq provider_id obligation.provider_id)
    then err (block_at_obligation obligation EntryClass.unset report MutationError.provider_changed)
    else ok revalidator

-- The registration found for an obligation; lookupAgentStateRevalidator gives none without a
-- revalidator.
abbrev pub checked_registration :
    {R : Type 0} → AgentStateObligation → Validation → Option (Registration R) → Result Blocked R
checked_registration obligation report none =
    err (block_at_obligation obligation EntryClass.unset report MutationError.no_revalidator)
checked_registration obligation report (some registration) =
    checked_provider obligation report registration.provider_id registration.revalidator

-- The first loop over the obligations; the keys of the source's map are distinct, so each obligation
-- is paired with its revalidator. `step` counts the times the disk is read.
unfoldable pub register_all :
    {R : Type 0}
    → World R
    → Lookup R
    → Validation
    → ℕ
    → List AgentStateObligation
    → Result Blocked (List (AgentStateObligation × R))
register_all world lookup report step [] = ok []
register_all world lookup report step (obligation ∷ obligations) = do
  refuse_if (not (identity_unchanged (world.disk step) obligation.path_identity))
      (block_at_obligation obligation EntryClass.unset report MutationError.identity_changed)
  revalidator ←
      checked_registration obligation report (lookup_agent_state_revalidator lookup obligation.tool)
  registered ← register_all world lookup report (suc step) obligations
  ok ((obligation, revalidator) ∷ registered)

-- The verdict on an obligation.
abbrev pub checked_class :
    AgentStateObligation → Validation → EntryClass × Option Text → Result Blocked EntryClass
checked_class obligation report (class, some message) =
    err (block_at_obligation obligation class report (MutationError.revalidation_failed message))
checked_class obligation report (class, none) = do
  refuse_if (not (is_orphaned class)) (
      block_at_obligation obligation class report
        (MutationError.not_orphaned (protected_entry_class class)))
  ok class

-- The second loop over the obligations.
unfoldable pub revalidate_all :
    {R : Type 0}
    → World R
    → Text
    → ℕ
    → List (AgentStateObligation × R)
    → Validation
    → Result Blocked Validation
revalidate_all world path reads [] report = ok report
revalidate_all world path reads ((obligation, revalidator) ∷ registered) report = do
  refuse_if (world.ctx reads) (block path report MutationError.cancelled)
  class ← checked_class obligation report (world.revalidate revalidator obligation.entry_path)
  revalidate_all world path (suc reads) registered (pass_obligation obligation class report)

-- The third loop over the obligations.
unfoldable pub recheck_all :
    {R : Type 0} → World R → Validation → ℕ → List AgentStateObligation → Result Blocked (Unit {0})
recheck_all world report step [] = ok tt
recheck_all world report step (obligation ∷ obligations) = do
  refuse_if (not (identity_unchanged (world.disk step) obligation.path_identity))
      (block_at_obligation obligation EntryClass.orphaned report MutationError.identity_changed)
  recheck_all world report (suc step) obligations

abbrev pub merged_or_block :
    Text
    → Validation
    → List AgentStateObligation ⊎ (Text × Text)
    → Result Blocked (List AgentStateObligation)
merged_or_block path report (inl obligations) = ok obligations
merged_or_block path report (inr (first, second)) =
    err (block path report (MutationError.ambiguous_providers first second))

module _ {R : Type 0} (world : World R) (lookup : Lookup R) where
  abbrev pub refused_by : Text → Validation → OverlapSafetyRefusal → Blocked
  refused_by path report refusal = block path report (MutationError.refused refusal)

  -- ValidateBeforeMutationWithReport, from the refreshed component on.
  unfoldable pub validate_current :
      OverlapSafetyComponent → Validation → OverlapSafetyComponent → Result Blocked Validation
  validate_current component report current = do
    unless_refused current.refusal (λ refusal. record {
      report = block_refused (world.disk 0) current.matches refusal report;
      error = MutationError.refused refusal;
    })
    refuse_if (not (identity_matches component.target_identity current.target_identity))
        (block component.target.path report MutationError.target_changed)
    obligations ←
        merged_or_block component.target.path report
          (merged_obligations component.obligations current.obligations)
    registered ← register_all world lookup (validation_for obligations) 1 obligations
    passed ← revalidate_all world component.target.path 1 registered (validation_for obligations)
    refuse_if
        (not (identity_unchanged (world.disk (1 + length obligations)) component.target_identity))
        (block component.target.path passed MutationError.target_changed)
    recheck_all world passed (2 + length obligations) obligations
    refuse_if (world.ctx (1 + length obligations))
        (block component.target.path passed MutationError.cancelled)
    ok passed

  -- ValidateBeforeMutationWithReport
  unfoldable pub validate_before_mutation :
      OverlapSafetyComponent → OverlapSafetyEvidence → Result Blocked Validation
  validate_before_mutation component refreshed = do
    refuse_if (world.ctx 0)
        (block component.target.path (validation_for component.obligations) MutationError.cancelled)
    unless_refused component.refusal (λ refusal.
        refused_by (refusal_blocking_path refusal) (validation_for component.obligations) refusal)
    current ← only_component component.target.path (validation_for component.obligations) (
        build_overlap_safety_plan (world.disk 0) world.planning refreshed (component.target ∷ [])
          lookup)
    validate_current component (validation_for component.obligations) current
