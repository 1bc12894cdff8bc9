-- ===== src/Worktree/Guided.antt =====
-- internal/worktree/guided.go: the state of the guided review and the commands that change it. A
-- state has what the commands read: the scan's source and activity index are left out, messages are
-- data, and the parser of ages and the protect matcher are parameters.
pub mod Selection
use aibris.Prelude.{
  ℕ, zero, suc, ◌-◌, ◌+◌, ℤ, pos, lt_ℤ, le_ℤ, Text, codes, List, [], ◌∷◌, ◌++◌, map, Bool, true,
  false, ◌&&◌, ◌||◌, not, Option, none, some, if◌then◌else◌, text_eq, text_lt, is_empty, any_of,
  keep_if, ◌==◌, sort, has_prefix, ltb,
}
use aibris.FilePath.{base}
use aibris.Types.{Category, WorktreeStatus, DebrisInfo, blank_item, is_worktree, is_active}
use aibris.Cleaner.Items.{FileSystem, target_path_key, trim_space}
use aibris.Cleaner.Targets.{normalize_targets}
use aibris.Worktree.{
  Uniqueness, UpstreamState, Member, CleanupUnit, CleanupPolicy, DecisionClass, ReasonCode,
  DecisionReason, Decision, is_locked, is_recommended,
}
use aibris.Worktree.Policy.{
  default_min_idle_age, default_cleanup_policy, fill_cleanup_policy, members_by_path,
  plan_worktree_cleanup, inspect_candidates,
}
use aibris.Worktree.Retention.{cleanup_unit_stable_key}
use aibris.Worktree.Display.{guided_cleanup_decision_reason, guided_cleanup_unit_item}

-- GuidedCleanRow, with the item and the reason of its GuidedCodexWorktreeRow.
pub record GuidedCleanRow : Type 0 where
  pub number : ℕ
  pub key : Text
  pub item : DebrisInfo
  pub reason : Text
  pub policy : DecisionClass
  pub reason_codes : List ReasonCode
  pub selected : Bool
  pub selection_override : Option Bool

-- GuidedCleanState
pub record GuidedCleanState : Type 0 where
  pub inventory : List DebrisInfo
  pub policy : CleanupPolicy
  pub rows : List GuidedCleanRow
  pub units : List CleanupUnit
  pub can_replan : Bool

-- What the review asks of its surroundings.
pub record Surroundings : Type 0 where
  pub files : FileSystem
  pub probe : Text → Uniqueness
  pub parse_age : Text → Option ℤ
  -- A matcher's ProtectMatch; `none` is the nil matcher.
  pub protect_match : Option (Text → Bool)

-- ToggleGuidedCleanRow, over the rows.
abbrev pub flip_row : GuidedCleanRow → GuidedCleanRow
flip_row row = record row {
  selected = not row.selected;
  selection_override = some (not row.selected);
}

unfoldable pub toggle_rows : ℕ → List GuidedCleanRow → List GuidedCleanRow × Bool
toggle_rows number [] = ([], true)
toggle_rows number (row ∷ rows) =
    let rest = toggle_rows number rows in
    if row.number == number
    then (if is_locked row.policy then (row ∷ rows, false) else (flip_row row ∷ rows, true))
    else (row ∷ rest.0, rest.1)

-- ToggleGuidedCleanRow
unfoldable pub toggle_guided_clean_row : GuidedCleanState → ℕ → GuidedCleanState × Bool
toggle_guided_clean_row state number =
    let (rows, ok) = toggle_rows number state.rows in (record state { rows = rows }, ok)

abbrev pub new_row : FileSystem → List DebrisInfo → Decision → GuidedCleanRow
new_row fs items d = record {
  number = 0;
  key = cleanup_unit_stable_key d.subject;
  item = guided_cleanup_unit_item fs d.subject items;
  reason = guided_cleanup_decision_reason d;
  policy = d.class;
  reason_codes = map (λ r. r.code) d.reasons;
  selected = is_recommended d.class;
  selection_override = none;
}

-- The order of the rows: recommended ones first, then by size, then by key.
unfoldable pub row_before : GuidedCleanRow → GuidedCleanRow → Bool
row_before a b =
    if is_recommended a.policy && not (is_recommended b.policy)
    then true
    else if is_recommended b.policy && not (is_recommended a.policy)
    then false
    else if lt_ℤ b.item.size a.item.size
    then true
    else if lt_ℤ a.item.size b.item.size
    then false
    else text_lt a.key b.key

unfoldable pub numbered : ℕ → List GuidedCleanRow → List GuidedCleanRow
numbered n [] = []
numbered n (row ∷ rows) = record row { number = n } ∷ numbered (suc n) rows

-- newGuidedCleanStateFromCleanupPlan
unfoldable pub new_guided_clean_state :
    FileSystem
    → CleanupPolicy
    → List CleanupUnit
    → List DebrisInfo
    → List Decision
    → GuidedCleanState
new_guided_clean_state fs policy units items plan = record {
  inventory = [];
  policy = fill_cleanup_policy policy;
  rows = numbered 1 (sort row_before (map (new_row fs items) plan));
  units = units;
  can_replan = true;
}

-- applyProtectPathToGuidedState
unfoldable pub protect_row : (Text → Bool) → GuidedCleanRow → GuidedCleanRow
protect_row protect_match row = if not (protect_match row.item.path) then row else record row {
  policy = DecisionClass.locked;
  selected = false;
  selection_override = none;
  reason = codes "protected by --protect-path";
  reason_codes = ReasonCode.protect_path ∷ [];
}

unfoldable pub apply_protect_path : Option (Text → Bool) → GuidedCleanState → GuidedCleanState
apply_protect_path none state = state
apply_protect_path (some protect_match) state = record state {
  rows = map (protect_row protect_match) state.rows;
}

-- filterActiveWorktrees
unfoldable pub filter_active_worktrees : List DebrisInfo → List DebrisInfo
filter_active_worktrees = keep_if (λ item. is_worktree item.category && is_active item.status)

-- planGuidedCleanState, with the time it reads and the working directory as arguments.
unfoldable pub plan_guided_clean_state :
    Surroundings → List DebrisInfo → List CleanupUnit → ℤ → ℤ → Text → GuidedCleanState
plan_guided_clean_state around worktrees units now min_idle_age cwd =
    let policy = fill_cleanup_policy (record (default_cleanup_policy now) {
      current_working_directory = cwd;
      min_idle_age = min_idle_age;
    }) in
    let inspected = inspect_candidates around.files around.probe units policy in
    let plan = plan_worktree_cleanup around.files inspected policy in
    let state =
      new_guided_clean_state around.files policy inspected (filter_active_worktrees worktrees)
        plan in
    apply_protect_path around.protect_match (record state { inventory = worktrees })

-- guidedCleanSelectionOverrides
unfoldable pub selection_overrides : List GuidedCleanRow → List (Text × Bool)
selection_overrides [] = []
selection_overrides (row ∷ rows) =
    let rest = selection_overrides rows in
    elim row.selection_override [
      | some chosen ↦ (row.key, chosen) ∷ rest
      | none ↦
          if row.selected && not (is_recommended row.policy)
            || not row.selected && is_recommended row.policy
          then (row.key, row.selected) ∷ rest
          else rest
    ]

-- A map's value at a key: the entry written last.
unfoldable pub last_at {ℓ} : {A : Type ℓ} → Text → List (Text × A) → Option A
last_at key [] = none
last_at key ((k, a) ∷ entries) = elim (last_at key entries) [
  | some b ↦ some b
  | none ↦ if text_eq k key then some a else none
]

-- applyReplannedGuidedRow
unfoldable pub replanned_row : List (Text × Decision) → GuidedCleanRow → GuidedCleanRow
replanned_row decisions row = elim (last_at row.key decisions) [
  | none ↦ row
  | some d ↦ record row {
    policy = d.class;
    reason = guided_cleanup_decision_reason d;
    reason_codes = map (λ r. r.code) d.reasons;
    selected = is_recommended d.class;
  }
]

-- applyReplannedGuidedCleanup
unfoldable pub apply_replanned : Surroundings → GuidedCleanState → GuidedCleanState
apply_replanned around state =
    let units = inspect_candidates around.files around.probe state.units state.policy in
    let plan = plan_worktree_cleanup around.files units state.policy in
    let decisions = map (λ d. (cleanup_unit_stable_key d.subject, d)) plan in
    record state { units = units; rows = map (replanned_row decisions) state.rows }

-- applyGuidedCleanSelectionOverrides
unfoldable pub override_row : List (Text × Bool) → GuidedCleanRow → GuidedCleanRow
override_row overrides row =
    if is_locked row.policy
    then record row { selected = false; selection_override = none }
    else elim (last_at row.key overrides) [
      | none ↦ row
      | some chosen ↦ record row { selected = chosen; selection_override = some chosen }
    ]

pub data Message : Type 0 where
  no_message invalid_age fixed_age : Message
  age_set : ℤ → Message

-- replanGuidedCleanAge
unfoldable pub replan_guided_clean_age :
    Surroundings → GuidedCleanState → ℤ → GuidedCleanState × Message
replan_guided_clean_age around state age =
    if not state.can_replan
    then (state, fixed_age)
    else let overrides = selection_overrides state.rows in
      let next = apply_replanned around (record state {
        policy = record (fill_cleanup_policy state.policy) { min_idle_age = age };
      }) in
      (record next { rows = map (override_row overrides) next.rows }, age_set age)

abbrev pub same_age : ℤ → ℤ → Bool
same_age a b = le_ℤ a b && le_ℤ b a

-- The presets, the first apart: six hours, and one, three, seven, fourteen and thirty days.
abbrev pub later_presets : List ℤ
later_presets =
    pos 86400000000000
    ∷ pos 259200000000000
    ∷ pos 604800000000000
    ∷ pos 1209600000000000
    ∷ pos 2592000000000000
    ∷ []

-- guidedCleanAgePresets
unfoldable pub guided_clean_age_presets : ℤ → List ℤ
guided_clean_age_presets current =
    let presets = pos 21600000000000 ∷ later_presets in
    if any_of (same_age current) presets then presets else sort lt_ℤ (presets ++ current ∷ [])

-- The loop that finds the place of the current age; `i` is the loop's index.
unfoldable pub preset_index : ℤ → List ℤ → ℕ → ℕ → ℕ
preset_index current [] i index = index
preset_index current (preset ∷ presets) i index =
    let rest =
      preset_index current presets (suc i) (if lt_ℤ preset current then suc i else index) in
    if same_age preset current then i else rest

-- presets[index], where an index past the end is the last one.
unfoldable pub preset_at : ℕ → ℤ → List ℤ → ℤ
preset_at n last [] = last
preset_at zero last (preset ∷ presets) = preset
preset_at (suc n) last (preset ∷ presets) = preset_at n preset presets

-- adjustGuidedCleanAge; `up` is direction 1. Going down from 0 stays there.
unfoldable pub adjust_guided_clean_age :
    Surroundings → GuidedCleanState → Bool → GuidedCleanState × Message
adjust_guided_clean_age around state up =
    let current = (fill_cleanup_policy state.policy).min_idle_age in
    let presets = guided_clean_age_presets current in
    let index = preset_index current presets 0 0 in
    replan_guided_clean_age around state
      (preset_at (if up then suc index else index - 1) default_min_idle_age presets)

-- strings.ToLower on ASCII.
abbrev pub lower : Text → Text
lower = map (λ c. if ltb 64 c && ltb c 91 then c + 32 else c)

abbrev pub drop_four : Text → Text
drop_four (a ∷ b ∷ c ∷ d ∷ rest) = rest
drop_four _ = []

-- The "age" command, from the parsed age.
unfoldable pub set_age : Surroundings → GuidedCleanState → Option ℤ → GuidedCleanState × Message
set_age around state none = (state, invalid_age)
set_age around state (some age) =
    if le_ℤ age (pos 0) then (state, invalid_age) else replan_guided_clean_age around state age

-- ApplyGuidedCleanCommand: the state, the message, and whether the line was a command.
unfoldable pub apply_guided_clean_command :
    Surroundings → GuidedCleanState → Text → (GuidedCleanState × Message) × Bool
apply_guided_clean_command around state line =
    if text_eq (lower line) (codes "+") || text_eq (lower line) (codes "]")
    then (adjust_guided_clean_age around state true, true)
    else if text_eq (lower line) (codes "-") || text_eq (lower line) (codes "[")
    then (adjust_guided_clean_age around state false, true)
    else if has_prefix (lower line) (codes "age ")
    then (set_age around state (around.parse_age (trim_space (drop_four line))), true)
    else ((state, no_message), false)

-- SelectedGuidedCleanTargets
unfoldable pub selected_guided_clean_targets : FileSystem → GuidedCleanState → List DebrisInfo
selected_guided_clean_targets fs state =
    normalize_targets fs (map (λ row. row.item) (keep_if (λ row. row.selected) state.rows))
