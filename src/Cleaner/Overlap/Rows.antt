-- ===== src/Cleaner/Overlap/Rows.antt =====
-- internal/cleaner/overlap_component.go: the logical rows of an overlap component.
use aibris.Prelude.{
  ℕ, suc, ℤ, pos, Text, codes, List, [], ◌∷◌, ◌++◌, Bool, true, false, ◌&&◌, ◌||◌, not, Option,
  none, some, if◌then◌else◌, text_eq, text_lt, is_empty, any_of, sort,
}
use aibris.FilePath.{path_contains}
use aibris.Types.{DebrisInfo, EntryClass, category_text, class_text, is_agent_state}
use aibris.Cleaner.Items.{join_nul, target_stable_key}

-- CleanupOverlapRelation
pub data RowRelation : Type 0 where
  owner exact descendant ancestor ambiguous : RowRelation

abbrev pub relation_text : RowRelation → Text
relation_text RowRelation.owner = codes "physical-owner"
relation_text RowRelation.exact = codes "exact-path"
relation_text RowRelation.descendant = codes "nested-descendant"
relation_text RowRelation.ancestor = codes "containing-ancestor"
relation_text RowRelation.ambiguous = codes "ambiguous-path"

-- CleanupOverlapLogicalInput
pub record LogicalInput : Type 0 where
  pub item : DebrisInfo
  pub policy_reason : Text
  pub policy_decision : Text
  pub reason_codes : List Text

-- CleanupOverlapLogicalRow
pub record LogicalRow : Type 0 where
  pub key : Text
  pub item : DebrisInfo
  pub canonical_path : Text
  pub relation : RowRelation
  pub policy_reason : Text
  pub policy_decision : Text
  pub reason_codes : List Text
  pub safety_reason : Text
  pub revalidation_required : Bool
  pub physical_bytes : ℤ
  pub discovery_ordinal : ℕ

-- CleanupLogicalRelation; `none` is its false.
unfoldable pub logical_relation : Text → Text → Option RowRelation
logical_relation owner_path row_path =
    if text_eq owner_path row_path
    then some RowRelation.exact
    else if path_contains owner_path row_path
    then some RowRelation.descendant
    else if path_contains row_path owner_path
    then some RowRelation.ancestor
    else none

abbrev agent_state_reason : EntryClass → Text
agent_state_reason EntryClass.orphaned = codes "recorded working directory is absent"
agent_state_reason EntryClass.live = codes "live agent-state protected"
agent_state_reason _ = codes "undetermined agent-state protected"

-- CleanupLogicalPolicyReason
unfoldable pub logical_policy_reason : LogicalInput → Text
logical_policy_reason input =
    if not (is_empty input.policy_reason)
    then input.policy_reason
    else if not (is_empty input.item.reason)
    then input.item.reason
    else if is_agent_state input.item.category
    then agent_state_reason input.item.classification
    else codes "discovered cleanup evidence"

abbrev pub same_stable_key : DebrisInfo → DebrisInfo → Bool
same_stable_key a b = text_eq (target_stable_key a) (target_stable_key b)

abbrev pub is_owner_row : DebrisInfo → Text → LogicalRow → Bool
is_owner_row target path row = text_eq row.canonical_path path && same_stable_key row.item target

abbrev pub owner_row : DebrisInfo → Text → LogicalRow
owner_row target path = record {
  key = [];
  item = target;
  canonical_path = path;
  relation = RowRelation.exact;
  policy_reason = codes "selected cleanup target";
  policy_decision = [];
  reason_codes = [];
  safety_reason = [];
  revalidation_required = false;
  physical_bytes = pos 0;
  discovery_ordinal = 0;
}

-- EnsureCleanupOwnerLogicalRow
unfoldable pub ensure_owner_row : List LogicalRow → DebrisInfo → Text → List LogicalRow
ensure_owner_row rows target path =
    if any_of (is_owner_row target path) rows then rows else rows ++ (owner_row target path ∷ [])

-- cleanupOverlapLogicalRowStableKey
unfoldable pub row_stable_key : LogicalRow → DebrisInfo → Text
row_stable_key row target = join_nul (
    (if not (is_empty row.canonical_path) && same_stable_key row.item target
      then codes "0"
      else codes "1")
    ∷ row.canonical_path
    ∷ relation_text row.relation
    ∷ category_text row.item.category
    ∷ row.item.tool
    ∷ row.item.id
    ∷ row.item.path
    ∷ class_text row.item.classification
    ∷ row.policy_reason
    ∷ row.safety_reason
    ∷ [])

abbrev pub row_before : DebrisInfo → LogicalRow → LogicalRow → Bool
row_before target a b = text_lt (row_stable_key a target) (row_stable_key b target)

-- ordinals[key], which counts the earlier rows of the key.
unfoldable pub times_seen : Text → List Text → ℕ
times_seen key [] = 0
times_seen key (other ∷ keys) =
    let rest = times_seen key keys in if text_eq other key then suc rest else rest

abbrev is_exact : RowRelation → Bool
is_exact RowRelation.exact = true
is_exact _ = false

-- The loop that numbers the rows; fmt's decimal numerals are an argument.
unfoldable pub number_rows :
    (ℕ → Text) → DebrisInfo → List Text → Bool → List LogicalRow → List LogicalRow
number_rows decimal target seen assigned [] = []
number_rows decimal target seen assigned (row ∷ rows) =
    let base_key = row_stable_key row target in
    let ordinal = suc (times_seen base_key seen) in
    let is_owner = not assigned && (is_exact row.relation && same_stable_key row.item target) in
    record row {
      discovery_ordinal = ordinal;
      relation = if is_owner then RowRelation.owner else row.relation;
      key = base_key ++ codes "#" ++ decimal ordinal;
    }
    ∷ number_rows decimal target (base_key ∷ seen) (assigned || is_owner) rows

-- SortCleanupOverlapLogicalRows
unfoldable pub sort_rows : (ℕ → Text) → List LogicalRow → DebrisInfo → List LogicalRow
sort_rows decimal rows target = number_rows decimal target [] false (sort (row_before target) rows)
