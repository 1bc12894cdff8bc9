-- ===== src/Worktree/Guided/Selection.antt =====
-- internal/worktree/guided.go: a locked row is never selected.
use aibris.Prelude.{
  ℕ, ℤ, pos, le_ℤ, text_eq, codes, has_prefix, ◌≡◌, Text, List, [], ◌∷◌, map, Bool, true, false,
  ◌&&◌, ◌||◌, not, Option, none, some, if◌then◌else◌, All, All-In, All-map, All-mono, All-intro,
  All-sort, arith, In, if_either, ◌==◌,
}
use aibris.Cleaner.Items.{FileSystem, trim_space}
use aibris.Types.{DebrisInfo}
use aibris.Worktree.{CleanupUnit, CleanupPolicy, Decision, is_locked}
use aibris.Worktree.Guided.{
  GuidedCleanRow, GuidedCleanState, Surroundings, toggle_rows, toggle_guided_clean_row, numbered,
  new_row, row_before, new_guided_clean_state, protect_row, apply_protect_path,
  plan_guided_clean_state, override_row, replan_guided_clean_age, set_age, Message, no_message,
  lower, drop_four, adjust_guided_clean_age, apply_guided_clean_command,
}

-- A row that is locked is not selected and has no override.
abbrev pub unlocked_or_clear : GuidedCleanRow → Bool
unlocked_or_clear row =
    not (is_locked row.policy)
    || (not row.selected && elim row.selection_override [ none ↦ true | some b ↦ false ])

abbrev pub LocksHold : List GuidedCleanRow → Type 0
LocksHold = All (λ row. unlocked_or_clear row ≡ true)

abbrev ToggleHolds : List GuidedCleanRow × Bool → Type 0
ToggleHolds r = LocksHold r.0

abbrev ReplanHolds : GuidedCleanState × Message → Type 0
ReplanHolds r = LocksHold r.0.rows

abbrev CommandHolds : (GuidedCleanState × Message) × Bool → Type 0
CommandHolds r = LocksHold r.0.0.rows

toggle_rows-LocksHold :
    (number : ℕ) (rows : List GuidedCleanRow)
    → LocksHold rows
    → LocksHold (toggle_rows number rows).0
unfolding toggle_rows
toggle_rows-LocksHold number [] h = tt
toggle_rows-LocksHold number (row ∷ rows) h =
    if_either ToggleHolds (row.number == number) _ _
      (λ e. if_either ToggleHolds (is_locked row.policy) _ _ (λ l. h) (λ l. (ground arith, h.1)))
      (λ e. (h.0, toggle_rows-LocksHold number rows h.1))

override_row-holds :
    (overrides : List (Text × Bool)) (row : GuidedCleanRow)
    → unlocked_or_clear (override_row overrides row) ≡ true
unfolding override_row
override_row-holds overrides row = ground arith

protect_row-holds :
    (protect_match : Text → Bool) (row : GuidedCleanRow)
    → unlocked_or_clear row ≡ true
    → unlocked_or_clear (protect_row protect_match row) ≡ true
unfolding protect_row
protect_row-holds protect_match row h = ground arith

new_row-holds :
    (fs : FileSystem) (items : List DebrisInfo) (d : Decision)
    → unlocked_or_clear (new_row fs items d) ≡ true
new_row-holds fs items d = ground arith

numbered-LocksHold :
    (n : ℕ) (rows : List GuidedCleanRow) → LocksHold rows → LocksHold (numbered n rows)
unfolding numbered
numbered-LocksHold n [] h = tt
numbered-LocksHold n (row ∷ rows) h = (h.0, numbered-LocksHold _ rows h.1)

new_state-LocksHold :
    (fs : FileSystem) (policy : CleanupPolicy) (units : List CleanupUnit) (items : List DebrisInfo)
    (plan : List Decision)
    → LocksHold (new_guided_clean_state fs policy units items plan).rows
unfolding new_guided_clean_state
new_state-LocksHold fs policy units items plan = numbered-LocksHold 1 _ (
    All-sort row_before _ (map (new_row fs items) plan)
      (All-map (new_row fs items) _ plan (All-intro _ plan (λ d i. new_row-holds fs items d))))

apply_protect_path-LocksHold :
    (matcher : Option (Text → Bool)) (state : GuidedCleanState)
    → LocksHold state.rows
    → LocksHold (apply_protect_path matcher state).rows
unfolding apply_protect_path
apply_protect_path-LocksHold none state h = h
apply_protect_path-LocksHold (some m) state h =
    All-map (protect_row m) _ state.rows
      (All-mono _ _ state.rows (λ row. protect_row-holds m row) h)

replan-LocksHold :
    (around : Surroundings) (state : GuidedCleanState) (age : ℤ)
    → LocksHold state.rows
    → LocksHold (replan_guided_clean_age around state age).0.rows
unfolding replan_guided_clean_age
replan-LocksHold around state age h =
    if_either ReplanHolds (not state.can_replan) _ _ (λ e. h)
      (λ e. All-map _ _ _ (All-intro _ _ (λ row i. override_row-holds _ row)))

set_age-LocksHold :
    (around : Surroundings) (state : GuidedCleanState) (age : Option ℤ)
    → LocksHold state.rows
    → ReplanHolds (set_age around state age)
unfolding set_age
set_age-LocksHold around state none h = h
set_age-LocksHold around state (some age) h =
    if_either ReplanHolds (le_ℤ age (pos 0)) _ _ (λ e. h) (λ e. replan-LocksHold around state age h)

adjust-LocksHold :
    (around : Surroundings) (state : GuidedCleanState) (up : Bool)
    → LocksHold state.rows
    → ReplanHolds (adjust_guided_clean_age around state up)
unfolding adjust_guided_clean_age
adjust-LocksHold around state up h = replan-LocksHold around state _ h

apply_command-LocksHold :
    (around : Surroundings) (state : GuidedCleanState) (line : Text)
    → LocksHold state.rows
    → LocksHold (apply_guided_clean_command around state line).0.0.rows
unfolding apply_guided_clean_command
apply_command-LocksHold around state line h =
    let aged : (GuidedCleanState × Message) × Bool =
      (set_age around state (around.parse_age (trim_space (drop_four line))), true) in
    let up : (GuidedCleanState × Message) × Bool =
      (adjust_guided_clean_age around state true, true) in
    let down : (GuidedCleanState × Message) × Bool =
      (adjust_guided_clean_age around state false, true) in
    let unhandled : (GuidedCleanState × Message) × Bool = ((state, no_message), false) in
    let is_up = text_eq (lower line) (codes "+") || text_eq (lower line) (codes "]") in
    let is_down = text_eq (lower line) (codes "-") || text_eq (lower line) (codes "[") in
    let is_age = has_prefix (lower line) (codes "age ") in
    if_either CommandHolds is_up up (if is_down then down else if is_age then aged else unhandled)
      (λ e. adjust-LocksHold around state true h)
      (λ e.
        if_either CommandHolds is_down down (if is_age then aged else unhandled)
          (λ e. adjust-LocksHold around state false h)
          (λ e.
            if_either CommandHolds is_age aged unhandled
              (λ e.
                set_age-LocksHold around state (around.parse_age (trim_space (drop_four line))) h)
              (λ e. h)))

-- The states of a review: planned, then toggled and commanded in any order.
pub data Reachable (around : Surroundings) : GuidedCleanState → Type 0 where
  planned :
      (worktrees : List DebrisInfo) (units : List CleanupUnit) (now min_idle_age : ℤ) (cwd : Text)
      → Reachable around (plan_guided_clean_state around worktrees units now min_idle_age cwd)
  toggled :
      (state : GuidedCleanState) (number : ℕ)
      → Reachable around state
      → Reachable around (toggle_guided_clean_row state number).0
  commanded :
      (state : GuidedCleanState) (line : Text)
      → Reachable around state
      → Reachable around (apply_guided_clean_command around state line).0.0

Reachable-LocksHold :
    (around : Surroundings) (state : GuidedCleanState)
    → Reachable around state
    → LocksHold state.rows
unfolding plan_guided_clean_state toggle_guided_clean_row
Reachable-LocksHold around _ (planned worktrees units now min_idle_age cwd) =
    apply_protect_path-LocksHold around.protect_match _ (new_state-LocksHold around.files _ _ _ _)
Reachable-LocksHold around _ (toggled state number r) =
    toggle_rows-LocksHold number state.rows (Reachable-LocksHold around state r)
Reachable-LocksHold around _ (commanded state line r) =
    apply_command-LocksHold around state line (Reachable-LocksHold around state r)

-- In every state that a guided review reaches, by toggles and age commands in any order from the
-- planned state, a row that is selected is not locked.
pub Reachable-selected :
    (around : Surroundings) (state : GuidedCleanState)
    → Reachable around state
    → (row : GuidedCleanRow) → In row state.rows
    → row.selected ≡ true
    → is_locked row.policy ≡ false
Reachable-selected around state r row i s =
    let h = All-In _ state.rows (Reachable-LocksHold around state r) row i in ground (arith, h)
