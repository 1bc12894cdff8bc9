-- ===== src/Cleaner/Overlap/Plan.antt =====
-- BuildOverlapSafetyPlan of internal/cleaner/overlap.go.
use aibris.Prelude.{ℕ, suc, ◌==◌, List, [], ◌∷◌, ◌||◌, not, ◌⊎◌, inl, inr, if◌then◌else◌}
use aibris.Types.{DebrisInfo}
use aibris.Cleaner.Items.{FileSystem}
use aibris.Cleaner.Overlap.{OverlapSafetyComponent, OverlapSafetyEvidence}
use aibris.Cleaner.Overlap.Entries.{Context, Entries, canonical_agent_state_entries}
use aibris.Cleaner.Overlap.Component.{Lookup, build_overlap_safety_component}

pub data PlanError : Type 0 where
  cancelled incomplete_evidence : PlanError

abbrev pub PlanResult : Type 0
PlanResult = List OverlapSafetyComponent ⊎ PlanError

abbrev pub before_plan : OverlapSafetyComponent → PlanResult → PlanResult
before_plan component (inl components) = inl (component ∷ components)
before_plan component (inr error) = inr error

-- The loop over the candidates.
unfoldable pub plan_components :
    {R : Type 0} → FileSystem → Context → ℕ → Entries → Lookup R → List DebrisInfo → PlanResult
plan_components fs ctx reads found lookup [] = inl []
plan_components fs ctx reads found lookup (candidate ∷ candidates) =
    let rest = plan_components fs ctx (suc reads) found lookup candidates in
    if ctx reads
    then inr cancelled
    else before_plan
        (build_overlap_safety_component fs candidate found.entries found.ambiguous lookup) rest

-- BuildOverlapSafetyPlan
unfoldable pub build_overlap_safety_plan :
    {R : Type 0}
    → FileSystem
    → Context
    → OverlapSafetyEvidence
    → List DebrisInfo
    → Lookup R
    → PlanResult
build_overlap_safety_plan fs ctx evidence candidates lookup =
    let found = canonical_agent_state_entries fs ctx 1 evidence.items in
    if ctx 0
    then inr cancelled
    else if not evidence.complete || not (evidence.provider_errors == 0)
    then inr incomplete_evidence
    else plan_components fs ctx found.reads found lookup candidates
