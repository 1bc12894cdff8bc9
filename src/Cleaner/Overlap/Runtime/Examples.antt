-- ===== src/Cleaner/Overlap/Runtime/Examples.antt =====
-- Concrete runs of the theorems about the selection of overlap safety.
use aibris.Prelude.{
  ◌≡◌, refl, ap, ◌∙◌, List, ℕ, codes, Text, [], ◌∷◌, true, sort, In, All, Pairwise, any_of, ok,
}
use aibris.FilePath.{is_abs}
use aibris.Cleaner.Targets.Outer.{Apart}
use aibris.Cleaner.Targets.Normalize.{key_of}
use aibris.Cleaner.Overlap.{allowed_targets}
use aibris.Cleaner.Overlap.Plan.{build_overlap_safety_plan}
use aibris.Cleaner.Overlap.Runtime.{build_cleanup_components}
use aibris.Cleaner.Overlap.Runtime.Selection.{
  Selection, selection_of, prepared_targets, apply_overlap_safety, default_logical_inputs,
  overlap_safety_audit_protections,
}
use aibris.Cleaner.Overlap.Runtime.Selected.{HasAllowed, apply_overlap_safety-Apart}
use aibris.Cleaner.Overlap.Runtime.Bytes.{total_bytes, build_cleanup_components-bytes}
use aibris.Cleaner.Targets.Merge.{IsAbsolute}
use aibris.Cleaner.Items.{trim_space, target_path_key}
use aibris.Cleaner.Targets.{normalize_targets, keep_outer, collect, add_target, add_candidate}
use aibris.Cleaner.Examples.{plain, plain-ResolvesAbsolute, tree}
use aibris.Types.{DebrisInfo}
use aibris.Cleaner.Overlap.Examples.{state_evidence, live, registered, tree_component, plan_run}

abbrev one_mark : ℕ → Text
one_mark n = codes "1"

build_cleanup_components-bytes_example :
    All
      (λ component. total_bytes component.rows ≡ component.owner.size)
      (build_cleanup_components plain one_mark (tree_component ∷ []) [])
build_cleanup_components-bytes_example =
    build_cleanup_components-bytes plain one_mark (tree_component ∷ []) []

abbrev chosen : Selection
chosen = record {
  plan = tree_component ∷ [];
  components =
      build_cleanup_components plain one_mark (tree_component ∷ [])
        (default_logical_inputs (tree ∷ []) state_evidence.items);
  targets = allowed_targets (tree_component ∷ []);
  protections = overlap_safety_audit_protections (tree_component ∷ []) [];
}

tree-prepared : prepared_targets plain (tree ∷ []) ≡ tree ∷ []
unfolding prepared_targets sort normalize_targets keep_outer collect add_target target_path_key
    trim_space add_candidate any_of
tree-prepared = refl

tree-chosen :
    apply_overlap_safety plain live one_mark state_evidence registered (tree ∷ []) [] ≡ ok chosen
unfolding apply_overlap_safety
tree-chosen =
    ap
      (λ (prepared : List DebrisInfo).
        selection_of plain one_mark (default_logical_inputs prepared state_evidence.items)
          (build_overlap_safety_plan plain live state_evidence prepared registered))
      tree-prepared
    ∙ ap (selection_of plain one_mark (default_logical_inputs (tree ∷ []) state_evidence.items))
        plan_run

tree-IsAbsolute : All IsAbsolute (tree ∷ [])
unfolding is_abs trim_space
tree-IsAbsolute = (refl, tt)

apply_overlap_safety-Apart_example :
    Pairwise (λ a b. Apart (key_of plain a) (key_of plain b)) chosen.targets
    × ((t : DebrisInfo) → In t chosen.targets → HasAllowed chosen.plan t)
    × (state_evidence.complete ≡ true)
apply_overlap_safety-Apart_example =
    apply_overlap_safety-Apart plain plain-ResolvesAbsolute (tree ∷ []) tree-IsAbsolute live
      one_mark state_evidence registered [] chosen tree-chosen
