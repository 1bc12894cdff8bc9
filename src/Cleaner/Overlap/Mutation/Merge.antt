-- ===== src/Cleaner/Overlap/Mutation/Merge.antt =====
-- internal/cleaner/overlap_mutation_helpers.go: mergedAgentStateObligations.
use aibris.Prelude.{
  Text, List, [], ◌∷◌, ◌++◌, Option, none, some, ◌⊎◌, inl, inr, if◌then◌else◌, text_eq, sort,
}
use aibris.Cleaner.Overlap.{AgentStateObligation}
use aibris.Cleaner.Overlap.Component.{obligation_key, obligation_before, set_obligation}

-- merged[key]
unfoldable pub obligation_at : Text → List AgentStateObligation → Option AgentStateObligation
obligation_at key [] = none
obligation_at key (obligation ∷ obligations) =
    if text_eq (obligation_key obligation) key
    then some obligation
    else obligation_at key obligations

abbrev pub other_provider : AgentStateObligation → Option AgentStateObligation → Option Text
other_provider obligation none = none
other_provider obligation (some existing) =
    if text_eq existing.provider_id obligation.provider_id then none else some existing.provider_id

-- The loop: the map, or the two providers of one key.
unfoldable pub merge_into :
    List AgentStateObligation
    → List AgentStateObligation
    → List AgentStateObligation ⊎ (Text × Text)
merge_into merged [] = inl merged
merge_into merged (obligation ∷ obligations) =
    elim (other_provider obligation (obligation_at (obligation_key obligation) merged)) [
      | some existing ↦ inr (existing, obligation.provider_id)
      | none ↦ merge_into (set_obligation obligation merged) obligations
    ]

abbrev pub sorted_obligations :
    List AgentStateObligation ⊎ (Text × Text) → List AgentStateObligation ⊎ (Text × Text)
sorted_obligations (inl obligations) = inl (sort obligation_before obligations)
sorted_obligations (inr providers) = inr providers

-- mergedAgentStateObligations
unfoldable pub merged_obligations :
    List AgentStateObligation
    → List AgentStateObligation
    → List AgentStateObligation ⊎ (Text × Text)
merged_obligations planned current = sorted_obligations (merge_into [] (planned ++ current))
