-- ===== src/Worktree/Display.antt =====
-- internal/worktree/guided.go: the item and the reason that a row of the guided review shows.
use aibris.Prelude.{
  pos, le_ℤ, Text, codes, List, [], ◌∷◌, ◌++◌, map, Bool, true, false, ◌&&◌, not, Option, none,
  some, if◌then◌else◌, text_eq, text_lt, is_empty, keep_if, sort,
}
use aibris.FilePath.{base}
use aibris.Types.{Category, WorktreeStatus, DebrisInfo, blank_item}
use aibris.Cleaner.Items.{FileSystem, target_path_key}
use aibris.Worktree.{UpstreamState, Member, CleanupUnit, DecisionReason, Decision}
use aibris.Worktree.Policy.{members_by_path}

-- strings.Join(parts, "; ")
unfoldable pub join_parts : List Text → Text
join_parts [] = []
join_parts (p ∷ []) = p
join_parts (p ∷ q ∷ ps) = p ++ codes "; " ++ join_parts (q ∷ ps)

abbrev pub several : List Member → Bool
several (m ∷ n ∷ ms) = true
several _ = false

-- guidedMemberReason
unfoldable pub guided_member_reason : CleanupUnit → Member → Text → Text
guided_member_reason unit m reason =
    if several unit.members then base m.worktree_path ++ codes ": " ++ reason else reason

unfoldable pub reason_part : CleanupUnit → DecisionReason → Text
reason_part unit reason =
    if not (is_empty reason.worktree_path) && several unit.members
    then base reason.worktree_path ++ codes ": " ++ reason.description
    else reason.description

unfoldable pub upstream_parts : CleanupUnit → List Member → List Text
upstream_parts unit [] = []
upstream_parts unit (m ∷ ms) =
    let rest = upstream_parts unit ms in
    elim m.upstream_state [
      | UpstreamState.none_configured ↦
          guided_member_reason unit m (codes "no upstream configured") ∷ rest
      | UpstreamState.gone ↦
          guided_member_reason unit m (codes "upstream gone: " ++ m.upstream_ref) ∷ rest
      | UpstreamState.other_state ↦ rest
    ]

-- GuidedCleanupDecisionReason; a decision's reasons all have a description.
unfoldable pub guided_cleanup_decision_reason : Decision → Text
guided_cleanup_decision_reason d =
    let parts =
      map (reason_part d.subject) d.reasons
      ++ upstream_parts d.subject (members_by_path d.subject.members) in
    if is_empty parts then codes "cleanup policy decision" else join_parts parts

abbrev pub key_is : Option Text → Text → Bool
key_is none path = false
key_is (some key) path = text_eq key path

abbrev pub named_before : DebrisInfo → DebrisInfo → Bool
named_before a b =
    if not (text_eq a.project b.project)
    then text_lt a.project b.project
    else if not (text_eq a.id b.id)
    then text_lt a.id b.id
    else text_lt a.path b.path

abbrev pub first_or : DebrisInfo → List DebrisInfo → DebrisInfo
first_or fallback [] = fallback
first_or fallback (item ∷ items) = item

-- guidedCleanupUnitItem; the zero time is 0.
unfoldable pub guided_cleanup_unit_item : FileSystem → CleanupUnit → List DebrisInfo → DebrisInfo
guided_cleanup_unit_item fs unit items =
    let candidates =
      keep_if (λ item. key_is (target_path_key fs item.path) unit.target_path) items in
    let fallback = record blank_item {
      tool = codes "unknown";
      category = Category.worktree;
      status = WorktreeStatus.active;
    } in
    let item = first_or fallback (sort named_before candidates) in
    let zero_time = le_ℤ unit.last_activity (pos 0) && le_ℤ (pos 0) unit.last_activity in
    record item {
      path = unit.target_path;
      size = unit.size;
      source = unit.source;
      mod_time = if zero_time then item.mod_time else unit.last_activity;
    }
