-- ===== src/Cleaner/Overlap/Component.antt =====
-- internal/cleaner/overlap_plan.go: the component of one target.
use aibris.Prelude.{
  Text, List, [], ◌∷◌, ◌++◌, Bool, true, false, ◌&&◌, ◌||◌, Option, none, some, ◌⊎◌, inl, inr,
  if◌then◌else◌, text_eq, text_lt, is_empty, sort,
}
use aibris.Types.{Tool, EntryClass, DebrisInfo, is_orphaned, is_command}
use aibris.Cleaner.Items.{FileSystem, effective_kind}
use aibris.Cleaner.Overlap.{
  OverlapSafetyReason, OverlapSafetyRelation, PathIdentity, RefusalDetail, OverlapSafetyMatch,
  AgentStateObligation, OverlapSafetyComponent,
}
use aibris.Cleaner.Overlap.Identity.{
  canonical_existing_path_identity, canonical_overlap_relation, overlaps, disjoint, unresolvable,
  ambiguous_may_overlap, link_limit,
}
use aibris.Cleaner.Overlap.Entries.{AgentStateEntry}

-- AgentStateRevalidatorRegistration, with a revalidator of any type; `none` is nil.
pub record Registration (R : Type 0) : Type 0 where
  pub tool : Tool
  pub provider_id : Text
  pub revalidator : Option R

-- AgentStateRevalidatorLookup: `none` is a nil function, or the error of one.
abbrev pub Lookup : Type 0 → Type 0
Lookup R = Option (Tool → Option (Registration R))

abbrev pub is_nil : {R : Type 0} → Option R → Bool
is_nil none = true
is_nil (some revalidator) = false

-- lookupAgentStateRevalidator
unfoldable pub lookup_agent_state_revalidator :
    {R : Type 0} → Lookup R → Tool → Option (Registration R)
lookup_agent_state_revalidator none tool = none
lookup_agent_state_revalidator (some lookup) tool = elim (lookup tool) [
  | none ↦ none
  | some registration ↦
      if is_nil registration.revalidator || is_empty registration.provider_id
      then none
      else some registration
]

abbrev pub refuse :
    OverlapSafetyComponent
    → OverlapSafetyReason
    → Tool
    → Text
    → RefusalDetail
    → OverlapSafetyComponent
refuse component reason tool path detail = record component {
  refusal = some (record {
    reason = reason;
    target_path = component.target.path;
    agent_state_tool = tool;
    agent_state_path = path;
    detail = detail;
  });
}

-- The first ambiguous item that may overlap the target, and what is said of it.
unfoldable pub first_ambiguous :
    FileSystem → PathIdentity → List DebrisInfo → Option (DebrisInfo × RefusalDetail)
first_ambiguous fs target [] = none
first_ambiguous fs target (item ∷ items) =
    let rest = first_ambiguous fs target items in
    elim (ambiguous_may_overlap fs link_limit target item.path) [
      | disjoint ↦ rest
      | overlaps ↦ some (item, RefusalDetail.unresolvable_agent_state)
      | unresolvable ↦ some (item, RefusalDetail.unresolvable_agent_state_with_error)
    ]

unfoldable pub overlap_matches : PathIdentity → List AgentStateEntry → List OverlapSafetyMatch
overlap_matches target [] = []
overlap_matches target (entry ∷ entries) =
    let rest = overlap_matches target entries in
    elim (canonical_overlap_relation target.canonical entry.identity.canonical) [
      | none ↦ rest
      | some relation ↦ record { item = entry.item; relation = relation } ∷ rest
    ]

unfoldable pub first_protected : List OverlapSafetyMatch → Option OverlapSafetyMatch
first_protected [] = none
first_protected (found ∷ matches) =
    if is_orphaned found.item.classification then first_protected matches else some found

-- protectedOverlapReason
unfoldable pub protected_overlap_reason : OverlapSafetyRelation → OverlapSafetyReason
protected_overlap_reason OverlapSafetyRelation.agent_state_ancestor =
    OverlapSafetyReason.protected_ancestor
protected_overlap_reason OverlapSafetyRelation.exact = OverlapSafetyReason.protected_exact
protected_overlap_reason _ = OverlapSafetyReason.protected_descendant

-- protectedEntryClass
unfoldable pub protected_entry_class : EntryClass → EntryClass
protected_entry_class EntryClass.live = EntryClass.live
protected_entry_class _ = EntryClass.undetermined

abbrev pub same_entry : AgentStateEntry → OverlapSafetyMatch → Bool
same_entry entry found =
    text_eq entry.item.path found.item.path
    && (text_eq entry.item.tool found.item.tool && text_eq entry.item.id found.item.id)

-- entryForMatch
unfoldable pub entry_for_match : List AgentStateEntry → OverlapSafetyMatch → Option AgentStateEntry
entry_for_match [] found = none
entry_for_match (entry ∷ entries) found =
    if same_entry entry found then some entry else entry_for_match entries found

-- agentStateObligationKey
unfoldable pub obligation_key : AgentStateObligation → Text
obligation_key obligation = obligation.tool ++ (0 ∷ obligation.entry_path)

abbrev pub obligation_before : AgentStateObligation → AgentStateObligation → Bool
obligation_before a b = text_lt (obligation_key a) (obligation_key b)

-- obligations[key] = obligation
unfoldable pub set_obligation :
    AgentStateObligation → List AgentStateObligation → List AgentStateObligation
set_obligation obligation [] = obligation ∷ []
set_obligation obligation (other ∷ others) =
    if text_eq (obligation_key other) (obligation_key obligation)
    then obligation ∷ others
    else other ∷ set_obligation obligation others

abbrev pub obligation_for :
    {R : Type 0} → OverlapSafetyMatch → AgentStateEntry → Registration R → AgentStateObligation
obligation_for found entry registration = record {
  tool = found.item.tool;
  entry_path = entry.identity.canonical;
  provider_id = registration.provider_id;
  path_identity = entry.identity;
}

-- The loop that gathers obligations: the map, or the match whose tool has no revalidator.
unfoldable pub gather_obligations :
    {R : Type 0}
    → Lookup R
    → List AgentStateEntry
    → List AgentStateObligation
    → List OverlapSafetyMatch
    → List AgentStateObligation ⊎ OverlapSafetyMatch
gather_obligations lookup entries obligations [] = inl obligations
gather_obligations lookup entries obligations (found ∷ matches) =
    elim (entry_for_match entries found) [
      | none ↦ gather_obligations lookup entries obligations matches
      | some entry ↦ elim (lookup_agent_state_revalidator lookup found.item.tool) [
        | none ↦ inr found
        | some registration ↦
            gather_obligations lookup entries
              (set_obligation (obligation_for found entry registration) obligations) matches
      ]
    ]

-- The end of buildOverlapSafetyComponent: the obligations of orphaned matches.
unfoldable pub with_obligations :
    {R : Type 0} → Lookup R → List AgentStateEntry → OverlapSafetyComponent → OverlapSafetyComponent
with_obligations lookup entries component =
    elim (gather_obligations lookup entries [] component.matches) [
      | inr found ↦
          refuse component OverlapSafetyReason.nested_revalidation found.item.tool found.item.path
            RefusalDetail.no_revalidator
      | inl obligations ↦ record component { obligations = sort obligation_before obligations }
    ]

abbrev pub head_match : List OverlapSafetyMatch → Option OverlapSafetyMatch
head_match [] = none
head_match (found ∷ matches) = some found

-- All matches must be orphaned.
unfoldable pub judge_classes :
    {R : Type 0} → Lookup R → List AgentStateEntry → OverlapSafetyComponent → OverlapSafetyComponent
judge_classes lookup entries component = elim (first_protected component.matches) [
  | some found ↦
      refuse component (protected_overlap_reason found.relation) found.item.tool found.item.path
        (RefusalDetail.classified (protected_entry_class found.item.classification))
  | none ↦ with_obligations lookup entries component
]

-- A command target may have no match.
unfoldable pub judge_matches :
    {R : Type 0} → Lookup R → List AgentStateEntry → OverlapSafetyComponent → OverlapSafetyComponent
judge_matches lookup entries component = elim (head_match component.matches) [
  | none ↦ judge_classes lookup entries component
  | some found ↦
      if is_command (effective_kind component.target)
      then refuse component OverlapSafetyReason.command_overlap found.item.tool found.item.path
          RefusalDetail.command_semantics
      else judge_classes lookup entries component
]

abbrev pub no_identity : PathIdentity
no_identity = record { raw = []; canonical = []; info = none }

abbrev pub new_component : DebrisInfo → OverlapSafetyComponent
new_component target = record {
  target = target;
  canonical_path = [];
  matches = [];
  obligations = [];
  refusal = none;
  target_identity = no_identity;
}

-- buildOverlapSafetyComponent
unfoldable pub build_overlap_safety_component :
    {R : Type 0}
    → FileSystem
    → DebrisInfo
    → List AgentStateEntry
    → List DebrisInfo
    → Lookup R
    → OverlapSafetyComponent
build_overlap_safety_component fs target entries ambiguous_entries lookup =
    elim (canonical_existing_path_identity fs target.path) [
      | inr error ↦
          refuse (new_component target) OverlapSafetyReason.ambiguous_identity [] []
            (RefusalDetail.bad_identity error)
      | inl identity ↦
          let known = record (new_component target) {
            canonical_path = identity.canonical;
            target_identity = identity;
          } in
          elim (first_ambiguous fs identity ambiguous_entries) [
            | some (item, detail) ↦
                refuse
                  (record known {
                    matches =
                        record { item = item; relation = OverlapSafetyRelation.ambiguous } ∷ [];
                  })
                  OverlapSafetyReason.ambiguous_identity item.tool item.path detail
            | none ↦
                judge_matches lookup entries
                  (record known { matches = overlap_matches identity entries })
          ]
    ]
