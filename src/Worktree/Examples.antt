-- ===== src/Worktree/Examples.antt =====
-- Concrete runs of the theorems about internal/worktree, and tests.
use aibris.Prelude.{
  subst, sym, ℤ, pos, ◌-ℤ◌, le_ℤ, ◌≡◌, refl, ◌↔◌, Text, codes, List, [], ◌∷◌, true, false, none,
  some, inl, inr, In, text_eq, text_lt, sort, any_of, is_empty,
}
use aibris.Cleaner.Items.{FileSystem, Leaf}
use aibris.Worktree.{
  GitReasonCode, Uniqueness, UpstreamState, Member, CleanupUnit, CleanupPolicy, Decision, is_locked,
  is_recommended,
}
use aibris.FilePath.{clean}
use aibris.Worktree.Locks.{
  hard_lock_reason_codes, activity_lock_reason_codes, contains_path, marked_dirty,
  marked_unavailable, marked_unreferenced, git_unavailable, member_dirty, member_unavailable,
  member_unreferenced, has_registered_activity_source,
}
use aibris.Worktree.Policy.{
  inspect_candidates, inspect_unit, inspect_member, classify_cleanup_unit,
  classify_eligible_cleanup_unit, recoverability_reasons, recoverability_loop,
  default_cleanup_policy, fill_cleanup_policy, uniqueness_demotion, needs_uniqueness_probe, decide,
  plan_worktree_cleanup,
}
use aibris.Worktree.Retention.{
  cleanup_unit_stable_key, retained_cleanup_units, retained_keys, group_units, group_members,
  append_to, more_recent,
}
use aibris.Worktree.Policy.Recommended.{UnitSafe, decide-recommended}
use aibris.Worktree.Policy.Plan.{
  fill_cleanup_policy-positive, plan_worktree_cleanup-safe, inspect_candidates-keeps, HeldBack,
  plan_worktree_cleanup-covers,
}
use aibris.Worktree.Guided.{
  GuidedCleanRow, GuidedCleanState, Surroundings, new_row, plan_guided_clean_state,
  toggle_guided_clean_row, adjust_guided_clean_age, replan_guided_clean_age, apply_protect_path,
  new_guided_clean_state, apply_replanned, toggle_rows, numbered, guided_clean_age_presets,
  preset_index, preset_at, selection_overrides, override_row, replanned_row, last_at, row_before,
  apply_guided_clean_command,
}
use aibris.Worktree.Display.{guided_cleanup_unit_item}
use aibris.Worktree.Repositories.{HasRepository}
use aibris.Worktree.Survivors.{Survivor, plan_worktree_cleanup-Survivor}
use aibris.Worktree.Policy.Plan.{decide-subject}
use aibris.Worktree.Guided.Selection.{Reachable, planned, toggled, commanded, Reachable-selected}

abbrev plain : FileSystem
plain = record {
  eval_symlinks = λ p. some p;
  lstat = λ p. Leaf.other_leaf;
  readlink = λ p. none;
  stat = λ p. some 0;
}

abbrev member : Member
member = record {
  worktree_path = codes "/w/a";
  repository_id = codes "r";
  branch_ref = codes "b";
  upstream_state = UpstreamState.other_state;
  upstream_ref = [];
  dirty = false;
  recoverable = true;
  hard_locked = false;
  reason = record { code = GitReasonCode.attached_branch; description = [] };
  evidence_available = true;
  git_evidence_available = true;
  default_branch_uniqueness = Uniqueness.merged;
}

-- A unit that was last active at time 1, and is large.
abbrev old_unit : CleanupUnit
old_unit = record {
  target_path = codes "/w/a";
  size = pos 300000000;
  source = [];
  members = member ∷ [];
  last_activity = pos 1;
  activity_available = true;
  registered_activity_available = true;
  registered_activity_source = codes "codex";
  hard_locked = false;
  hard_lock_reasons = [];
}

-- Other units of the repository, all more recent, which retention holds.
abbrev newer : Text → ℤ → CleanupUnit
newer path at = record old_unit { target_path = path; last_activity = at }

abbrev units : List CleanupUnit
units =
    newer (codes "/w/b") (pos 2)
    ∷ newer (codes "/w/c") (pos 3)
    ∷ newer (codes "/w/d") (pos 4)
    ∷ old_unit
    ∷ []

abbrev policy : CleanupPolicy
policy = default_cleanup_policy (pos 900000000000000)

abbrev old_decision : Decision
old_decision =
    decide plain (fill_cleanup_policy policy) (retained_cleanup_units units (pos 3)) old_unit

-- The oldest of the four is recommended.
old-recommended : is_recommended old_decision.class ≡ true
unfolding classify_cleanup_unit hard_lock_reason_codes activity_lock_reason_codes contains_path
    marked_dirty marked_unavailable marked_unreferenced git_unavailable member_dirty
    member_unavailable member_unreferenced has_registered_activity_source any_of text_eq
    fill_cleanup_policy ◌-ℤ◌ classify_eligible_cleanup_unit uniqueness_demotion
    cleanup_unit_stable_key clean retained_cleanup_units retained_keys group_units group_members
    append_to more_recent sort text_lt
old-recommended = refl

old-planned : In old_decision (plan_worktree_cleanup plain units policy)
unfolding plan_worktree_cleanup classify_cleanup_unit hard_lock_reason_codes
    activity_lock_reason_codes contains_path marked_dirty marked_unavailable marked_unreferenced
    git_unavailable member_dirty member_unavailable member_unreferenced
    has_registered_activity_source any_of text_eq fill_cleanup_policy ◌-ℤ◌
    classify_eligible_cleanup_unit uniqueness_demotion cleanup_unit_stable_key clean
    retained_cleanup_units retained_keys group_units group_members append_to more_recent sort
    text_lt recoverability_reasons recoverability_loop
old-planned = inl refl

plan_worktree_cleanup-safe_example :
    In old_decision.subject units × UnitSafe plain (fill_cleanup_policy policy) old_decision.subject
plan_worktree_cleanup-safe_example =
    plan_worktree_cleanup-safe plain units policy old_decision old-planned old-recommended

old-HasRepository : HasRepository (codes "r") old_decision.subject
old-HasRepository =
    subst (HasRepository (codes "r"))
      (sym (
        decide-subject plain (fill_cleanup_policy policy) (retained_cleanup_units units (pos 3))
          old_unit))
      (member, inl refl, refl)

plan_worktree_cleanup-Survivor_example :
    Survivor plain units policy (codes "r") old_decision.subject
plan_worktree_cleanup-Survivor_example =
    plan_worktree_cleanup-Survivor plain units policy old_decision old-planned old-recommended
      (codes "r") refl old-HasRepository

plan_worktree_cleanup-covers_example :
    (d : Decision) × In d (plan_worktree_cleanup plain units policy) × (d.subject ≡ old_unit)
plan_worktree_cleanup-covers_example =
    plan_worktree_cleanup-covers plain units policy old_unit (inr (inr (inr (inl refl))))

decide-recommended_example : (is_recommended (decide plain policy [] old_unit).class ≡ true) ↔ (
    (needs_uniqueness_probe plain old_unit policy [] ≡ true)
    × (uniqueness_demotion old_unit ≡ none))
decide-recommended_example = decide-recommended plain old_unit policy []

fill_cleanup_policy-positive_example :
    let filled = fill_cleanup_policy (record policy { min_size = pos 0 }) in
    (le_ℤ filled.recent_activity_window (pos 0) ≡ false)
    × (le_ℤ filled.keep_per_repository (pos 0) ≡ false)
    × (le_ℤ filled.min_idle_age (pos 0) ≡ false)
    × (le_ℤ filled.min_size (pos 0) ≡ false)
    × (fill_cleanup_policy filled ≡ filled)
fill_cleanup_policy-positive_example =
    fill_cleanup_policy-positive (record policy { min_size = pos 0 })

abbrev around : Surroundings
around = record {
  files = plain;
  probe = λ p. Uniqueness.unknown;
  parse_age = λ text. none;
  protect_match = none;
}

abbrev start : GuidedCleanState
start = plan_guided_clean_state around [] (old_unit ∷ []) (pos 900000000000000) (pos 0) []

abbrev after : GuidedCleanState
after = (apply_guided_clean_command around (toggle_guided_clean_row start 1).0 (codes "+")).0.0

after-Reachable : Reachable around after
after-Reachable =
    commanded (toggle_guided_clean_row start 1).0 (codes "+")
      (toggled start 1 (planned [] (old_unit ∷ []) (pos 900000000000000) (pos 0) []))

abbrev first_of : GuidedCleanRow → List GuidedCleanRow → GuidedCleanRow
first_of fallback [] = fallback
first_of fallback (row ∷ rows) = row

first_of-In :
    (fallback : GuidedCleanRow) (rows : List GuidedCleanRow)
    → is_empty rows ≡ false
    → In (first_of fallback rows) rows
first_of-In fallback [] h = cc
first_of-In fallback (row ∷ rows) h = inl refl

-- The one row, held by retention and selected by the toggle, which the replan keeps.
abbrev first_row : GuidedCleanRow
first_row = first_of (new_row plain [] old_decision) after.rows

first_row-In : In first_row after.rows
unfolding apply_guided_clean_command toggle_guided_clean_row plan_guided_clean_state
    plan_worktree_cleanup adjust_guided_clean_age replan_guided_clean_age apply_protect_path
    new_guided_clean_state apply_replanned toggle_rows numbered inspect_candidates
    needs_uniqueness_probe guided_clean_age_presets preset_index preset_at selection_overrides
    override_row replanned_row last_at row_before inspect_unit inspect_member
    guided_cleanup_unit_item classify_cleanup_unit hard_lock_reason_codes activity_lock_reason_codes
    contains_path marked_dirty marked_unavailable marked_unreferenced git_unavailable member_dirty
    member_unavailable member_unreferenced has_registered_activity_source any_of text_eq
    fill_cleanup_policy ◌-ℤ◌ classify_eligible_cleanup_unit uniqueness_demotion
    cleanup_unit_stable_key clean retained_cleanup_units retained_keys group_units group_members
    append_to more_recent sort text_lt recoverability_reasons recoverability_loop
first_row-In =
    let some_row : is_empty after.rows ≡ false = refl in
    first_of-In (new_row plain [] old_decision) after.rows some_row

first_row-selected : first_row.selected ≡ true
unfolding apply_guided_clean_command toggle_guided_clean_row plan_guided_clean_state
    plan_worktree_cleanup adjust_guided_clean_age replan_guided_clean_age apply_protect_path
    new_guided_clean_state apply_replanned toggle_rows numbered inspect_candidates
    needs_uniqueness_probe guided_clean_age_presets preset_index preset_at selection_overrides
    override_row replanned_row last_at row_before inspect_unit inspect_member
    guided_cleanup_unit_item classify_cleanup_unit hard_lock_reason_codes activity_lock_reason_codes
    contains_path marked_dirty marked_unavailable marked_unreferenced git_unavailable member_dirty
    member_unavailable member_unreferenced has_registered_activity_source any_of text_eq
    fill_cleanup_policy ◌-ℤ◌ classify_eligible_cleanup_unit uniqueness_demotion
    cleanup_unit_stable_key clean retained_cleanup_units retained_keys group_units group_members
    append_to more_recent sort text_lt recoverability_reasons recoverability_loop
first_row-selected = refl

Reachable-selected_example : is_locked first_row.policy ≡ false
Reachable-selected_example =
    Reachable-selected around after after-Reachable first_row first_row-In first_row-selected

abbrev newest : CleanupUnit
newest = newer (codes "/w/d") (pos 4)

-- Retention holds the newest unit.
newest-retained :
    In
      (cleanup_unit_stable_key newest)
      (retained_cleanup_units units (fill_cleanup_policy policy).keep_per_repository)
unfolding text_eq fill_cleanup_policy ◌-ℤ◌ cleanup_unit_stable_key clean retained_cleanup_units
    retained_keys group_units group_members append_to more_recent sort text_lt any_of
newest-retained = inl refl

inspect_candidates-keeps_example : In newest (inspect_candidates plain around.probe units policy)
inspect_candidates-keeps_example =
    inspect_candidates-keeps plain units policy around.probe newest (inr (inr (inl refl)))
      (HeldBack.retained newest-retained)
