-- ===== src/Cleaner/Overlap/Mutation/Examples.antt =====
-- Concrete runs of the theorems about the barrier before a mutation.
use aibris.Prelude.{
  ◌≡◌, refl, codes, [], ◌∷◌, Bool, false, text_eq, sort, has_prefix, none, some, inl, ok, err,
}
use aibris.FilePath.{is_abs, clean, path_contains, rel, rel_elements, elements, stays_below}
use aibris.Types.{EntryClass}
use aibris.Cleaner.Items.{trim_space, effective_kind, join_nul}
use aibris.Cleaner.Overlap.{AgentStateObligation, OverlapSafetyComponent}
use aibris.Cleaner.Overlap.Identity.{
  canonical_existing_path_identity, canonical_overlap_relation, identity_matches,
  identity_unchanged,
}
use aibris.Cleaner.Overlap.Entries.{scan_entries, add_entry, canonical_agent_state_entries}
use aibris.Cleaner.Overlap.Component.{
  build_overlap_safety_component, first_ambiguous, judge_matches, overlap_matches, entry_for_match,
  first_protected, gather_obligations, judge_classes, lookup_agent_state_revalidator,
  with_obligations, set_obligation, obligation_key, protected_entry_class,
}
use aibris.Cleaner.Overlap.Plan.{plan_components, build_overlap_safety_plan}
use aibris.Cleaner.Overlap.Mutation.{
  World, register_all, revalidate_all, recheck_all, validate_current, validate_before_mutation,
}
use aibris.Cleaner.Overlap.Mutation.Report.{
  MutationError, RevalidationState, Validation, validation_for, pass_obligation, block_obligation,
  set_first,
}
use aibris.Cleaner.Overlap.Mutation.Merge.{merge_into, obligation_at, merged_obligations}
use aibris.Cleaner.Overlap.Mutation.Merged.{HasProvider, merged_obligations-HasProvider}
use aibris.Cleaner.Overlap.Mutation.Barrier.{Current, validate_before_mutation-Current}
use aibris.Cleaner.Overlap.Mutation.Errors.{validate_before_mutation-reason}
use aibris.Cleaner.Examples.{plain}
use aibris.Cleaner.Overlap.Examples.{state_evidence, live, registered, tree_component}

-- The disk does not change, and each revalidator answers as given.
abbrev answering : EntryClass → World Bool
answering class = record {
  disk = λ step. plain;
  planning = live;
  ctx = live;
  revalidate = λ revalidator path. (class, none);
}

abbrev passed_report : Validation
passed_report = record {
  outcomes =
      record {
        tool = codes "codex";
        entry_path = codes "/a/b/s";
        provider_id = codes "codex";
        state = RevalidationState.passed;
        classification = EntryClass.orphaned;
        reason = none;
      }
      ∷ [];
  blocking_path = [];
  blocking_reason = none;
}

abbrev live_error : MutationError
live_error = MutationError.not_orphaned EntryClass.live

abbrev live_report : Validation
live_report = record {
  outcomes =
      record {
        tool = codes "codex";
        entry_path = codes "/a/b/s";
        provider_id = codes "codex";
        state = RevalidationState.blocked;
        classification = EntryClass.live;
        reason = some live_error;
      }
      ∷ [];
  blocking_path = codes "/a/b/s";
  blocking_reason = some live_error;
}

passes :
    validate_before_mutation
      (answering EntryClass.orphaned)
      registered
      tree_component
      state_evidence
    ≡ ok passed_report
unfolding validate_before_mutation validate_current build_overlap_safety_plan plan_components
    build_overlap_safety_component canonical_existing_path_identity trim_space is_abs
    first_ambiguous canonical_agent_state_entries sort scan_entries add_entry judge_matches
    overlap_matches canonical_overlap_relation text_eq clean path_contains rel rel_elements elements
    effective_kind join_nul entry_for_match first_protected gather_obligations judge_classes
    lookup_agent_state_revalidator with_obligations stays_below has_prefix set_obligation
    obligation_key identity_matches identity_unchanged merged_obligations merge_into obligation_at
    register_all revalidate_all recheck_all validation_for pass_obligation block_obligation
    set_first protected_entry_class
passes = refl

blocks :
    validate_before_mutation (answering EntryClass.live) registered tree_component state_evidence
    ≡ err (record { report = live_report; error = live_error })
unfolding validate_before_mutation validate_current build_overlap_safety_plan plan_components
    build_overlap_safety_component canonical_existing_path_identity trim_space is_abs
    first_ambiguous canonical_agent_state_entries sort scan_entries add_entry judge_matches
    overlap_matches canonical_overlap_relation text_eq clean path_contains rel rel_elements elements
    effective_kind join_nul entry_for_match first_protected gather_obligations judge_classes
    lookup_agent_state_revalidator with_obligations stays_below has_prefix set_obligation
    obligation_key identity_matches identity_unchanged merged_obligations merge_into obligation_at
    register_all revalidate_all recheck_all validation_for pass_obligation block_obligation
    set_first protected_entry_class
blocks = refl

validate_before_mutation-Current_example :
    ((answering EntryClass.orphaned).ctx 0 ≡ false)
    × (tree_component.refusal ≡ none)
    × ((current : OverlapSafetyComponent) × (build_overlap_safety_plan plain live state_evidence
            (tree_component.target ∷ [])
            registered
          ≡ inl (current ∷ []))
        × Current (answering EntryClass.orphaned) registered tree_component current)
validate_before_mutation-Current_example =
    validate_before_mutation-Current (answering EntryClass.orphaned) registered tree_component
      state_evidence passed_report passes

validate_before_mutation-reason_example : live_report.blocking_reason ≡ some live_error
validate_before_mutation-reason_example =
    validate_before_mutation-reason (answering EntryClass.live) registered tree_component
      state_evidence (record { report = live_report; error = live_error }) blocks

abbrev some_obligation : AgentStateObligation
some_obligation = record {
  tool = codes "codex";
  entry_path = codes "/a/b/s";
  provider_id = codes "codex";
  path_identity = record { raw = codes "/a/b/s"; canonical = codes "/a/b/s"; info = some 0 };
}

merges :
    merged_obligations (some_obligation ∷ []) (some_obligation ∷ []) ≡ inl (some_obligation ∷ [])
unfolding merged_obligations merge_into obligation_at set_obligation text_eq sort obligation_key
merges = refl

merged_obligations-HasProvider_example :
    HasProvider (obligation_key some_obligation) (codes "codex") (some_obligation ∷ [])
merged_obligations-HasProvider_example =
    merged_obligations-HasProvider (some_obligation ∷ []) (some_obligation ∷ [])
      (some_obligation ∷ []) merges some_obligation (inl refl)
