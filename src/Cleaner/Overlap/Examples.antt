-- ===== src/Cleaner/Overlap/Examples.antt =====
-- Concrete runs of the theorems about the overlap plan.
use aibris.Prelude.{
  Text, ◌≡◌, refl, codes, [], ◌∷◌, ◌++◌, map, Bool, true, false, text_eq, sort, has_prefix, none,
  some, ◌⊎◌, ok, err, is_empty, if◌then◌else◌, inl, inr,
}
use aibris.FilePath.{
  is_abs, clean, path_contains, rel, rel_elements, elements, stays_below, dir, base, join,
  up_to_last_sep, trim_right_sep, last_word,
}
use aibris.Types.{Category, EntryClass, DebrisInfo, blank_item, is_orphaned, is_command}
use aibris.Cleaner.Items.{FileSystem, Leaf, trim_space, effective_kind, join_nul}
use aibris.Cleaner.Overlap.{
  PathIdentity, IdentityError, OverlapSafetyComponent, OverlapSafetyEvidence,
}
use aibris.Cleaner.Overlap.Identity.{
  canonical_existing_path_identity, canonical_overlap_relation, is_related, ambiguous_may_overlap,
  relates_to_either, resolve_within, walk_up, join_all, link_limit,
}
use aibris.Cleaner.Overlap.Entries.{Context, scan_entries, add_entry, canonical_agent_state_entries}
use aibris.Cleaner.Overlap.Component.{
  Lookup, build_overlap_safety_component, first_ambiguous, judge_matches, overlap_matches,
  entry_for_match, first_protected, gather_obligations, judge_classes,
  lookup_agent_state_revalidator, with_obligations, set_obligation, obligation_key,
}
use aibris.Cleaner.Overlap.Plan.{plan_components, build_overlap_safety_plan}
use aibris.Cleaner.Overlap.Evidence.{StaysCancelled}
use aibris.Cleaner.Overlap.Gathered.{HasObligation}
use aibris.Cleaner.Overlap.Complete.{build_overlap_safety_plan-complete}
use aibris.Cleaner.Overlap.Apart.{Unrelated}
use aibris.Cleaner.Overlap.Safety.{
  build_overlap_safety_plan-protects, build_overlap_safety_plan-unresolved,
}
use aibris.Cleaner.Overlap.Memo.{
  Call, RefreshError, get, is_reused, empty_memo, call_key, Refreshed, reset, called, get-Refreshed,
}
use aibris.Cleaner.Examples.{plain, tree}

-- Orphaned agent state below the worktree, with a revalidator.
abbrev state_item : DebrisInfo
state_item = record blank_item {
  tool = codes "codex";
  category = Category.agent_state;
  path = codes "/a/b/s";
  classification = EntryClass.orphaned;
}

abbrev pub state_evidence : OverlapSafetyEvidence
state_evidence = record { items = state_item ∷ []; provider_errors = 0; complete = true }

abbrev pub live : Context
live n = false

live-StaysCancelled : StaysCancelled live
live-StaysCancelled i h = cc

abbrev pub registered : Lookup Bool
registered =
    some
      (λ tool. some (record { tool = tool; provider_id = codes "codex"; revalidator = some true }))

abbrev state_identity : PathIdentity
state_identity = record { raw = codes "/a/b/s"; canonical = codes "/a/b/s"; info = some 0 }

abbrev pub tree_component : OverlapSafetyComponent
tree_component =
    let found = canonical_agent_state_entries plain live 1 state_evidence.items in
    build_overlap_safety_component plain tree found.entries found.ambiguous registered

pub plan_run :
    build_overlap_safety_plan plain live state_evidence (tree ∷ []) registered
    ≡ inl (tree_component ∷ [])
unfolding build_overlap_safety_plan plan_components
plan_run = refl

component-allowed : tree_component.refusal ≡ none
unfolding build_overlap_safety_component canonical_existing_path_identity trim_space is_abs
    first_ambiguous canonical_agent_state_entries sort scan_entries add_entry judge_matches
    overlap_matches canonical_overlap_relation text_eq clean path_contains rel rel_elements elements
    effective_kind join_nul entry_for_match first_protected gather_obligations judge_classes
    lookup_agent_state_revalidator with_obligations stays_below has_prefix set_obligation
    obligation_key
component-allowed = refl

state-identity : canonical_existing_path_identity plain state_item.path ≡ inl state_identity
unfolding canonical_existing_path_identity trim_space clean is_abs text_eq
state-identity = refl

state-related :
    is_related (canonical_overlap_relation tree_component.canonical_path state_identity.canonical)
    ≡ true
unfolding build_overlap_safety_component canonical_existing_path_identity trim_space is_abs
    first_ambiguous canonical_agent_state_entries sort scan_entries add_entry judge_matches
    overlap_matches canonical_overlap_relation text_eq clean path_contains rel rel_elements elements
    effective_kind join_nul entry_for_match first_protected gather_obligations judge_classes
    lookup_agent_state_revalidator with_obligations stays_below has_prefix set_obligation
    obligation_key
state-related = refl

build_overlap_safety_plan-protects_example :
    (is_orphaned state_item.classification ≡ true)
    × (is_command (effective_kind tree_component.target) ≡ false)
    × HasObligation (state_item.tool ++ (0 ∷ state_identity.canonical)) tree_component.obligations
build_overlap_safety_plan-protects_example =
    build_overlap_safety_plan-protects plain live live-StaysCancelled state_evidence (tree ∷ [])
      registered (tree_component ∷ []) plan_run tree_component (inl refl) component-allowed
      state_item (inl refl) refl state_identity state-identity state-related

build_overlap_safety_plan-complete_example :
    (live 0 ≡ false)
    × (state_evidence.complete ≡ true)
    × (state_evidence.provider_errors ≡ 0)
    × (map (λ c. c.target) (tree_component ∷ []) ≡ tree ∷ [])
build_overlap_safety_plan-complete_example =
    build_overlap_safety_plan-complete plain live state_evidence (tree ∷ []) registered
      (tree_component ∷ []) plan_run

-- Agent state whose path is gone, away from the worktree.
abbrev gone : FileSystem
gone = record plain {
  lstat = λ p. if text_eq p (codes "/z") then Leaf.missing else Leaf.other_leaf;
  eval_symlinks = λ p. if text_eq p (codes "/z") then none else some p;
}

abbrev gone_item : DebrisInfo
gone_item = record state_item { path = codes "/z" }

abbrev gone_evidence : OverlapSafetyEvidence
gone_evidence = record { items = gone_item ∷ []; provider_errors = 0; complete = true }

abbrev gone_component : OverlapSafetyComponent
gone_component =
    let found = canonical_agent_state_entries gone live 1 gone_evidence.items in
    build_overlap_safety_component gone tree found.entries found.ambiguous registered

gone_run :
    build_overlap_safety_plan gone live gone_evidence (tree ∷ []) registered
    ≡ inl (gone_component ∷ [])
unfolding build_overlap_safety_plan plan_components
gone_run = refl

gone-allowed : gone_component.refusal ≡ none
unfolding build_overlap_safety_component canonical_existing_path_identity trim_space is_abs
    first_ambiguous canonical_agent_state_entries sort scan_entries add_entry judge_matches
    overlap_matches canonical_overlap_relation text_eq clean path_contains rel rel_elements elements
    effective_kind join_nul entry_for_match first_protected gather_obligations judge_classes
    lookup_agent_state_revalidator with_obligations stays_below has_prefix set_obligation
    obligation_key ambiguous_may_overlap relates_to_either resolve_within walk_up dir base join
    join_all up_to_last_sep trim_right_sep last_word
gone-allowed = refl

gone-unresolved :
    canonical_existing_path_identity gone gone_item.path
    ≡ inr (IdentityError.unresolved (codes "/z"))
unfolding canonical_existing_path_identity trim_space clean is_abs text_eq
gone-unresolved = refl

build_overlap_safety_plan-unresolved_example :
    (is_abs (clean (trim_space gone_item.path)) ≡ false)
    ⊎ ((resolved : Text) × (resolve_within gone link_limit (clean (trim_space gone_item.path))
          ≡ some resolved)
        × Unrelated gone_component.target_identity.raw (clean (trim_space gone_item.path))
        × Unrelated gone_component.target_identity.canonical (clean (trim_space gone_item.path))
        × Unrelated gone_component.target_identity.raw resolved
        × Unrelated gone_component.target_identity.canonical resolved)
build_overlap_safety_plan-unresolved_example =
    build_overlap_safety_plan-unresolved gone live live-StaysCancelled gone_evidence (tree ∷ [])
      registered (gone_component ∷ []) gone_run gone_component (inl refl) gone-allowed gone_item
      (inl refl) refl (IdentityError.unresolved (codes "/z")) gone-unresolved

-- A refresh under one fingerprint, then a call that finds the same one and would fail to refresh.
abbrev first_call : Call
first_call = record {
  has_fingerprint = true;
  fingerprint = some (codes "k");
  refresh = ok state_evidence;
}

abbrev second_call : Call
second_call = record {
  has_fingerprint = true;
  fingerprint = some (codes "k");
  refresh = err RefreshError.refresh_failed;
}

reused : (get (get empty_memo first_call).0 second_call).1 ≡ ok state_evidence
unfolding get is_reused text_eq
reused = refl

get-Refreshed_example :
    (second_call.refresh ≡ ok state_evidence)
    ⊎ ((is_empty (call_key second_call) ≡ false)
        × Refreshed (call_key second_call) state_evidence (first_call ∷ []))
get-Refreshed_example =
    get-Refreshed (get empty_memo first_call).0 (first_call ∷ []) (called reset first_call)
      second_call state_evidence reused
