-- ===== src/Types.antt =====
-- internal/types/types.go: debris items, their classes, and the options of a clean run. Sizes are
-- integers of bytes, times and durations integers of nanoseconds. An open string type is a data
-- type of its constants with a constructor for any other string.
use aibris.Prelude.{ℕ, ℤ, pos, Text, codes, List, [], Bool, true, false}

abbrev pub Tool : Type 0
Tool = Text

abbrev pub tool_build_cache : Tool
tool_build_cache = codes "build-cache"

pub data CleanupKind : Type 0 where
  unset remove_path command : CleanupKind
  other : Text → CleanupKind

pub data Category : Type 0 where
  worktree node_modules build_cache other_cache agent_state ai_logs unset : Category
  other : Text → Category

-- Category.IsRisky
unfoldable pub is_risky : Category → Bool
is_risky Category.worktree = false
is_risky Category.node_modules = false
is_risky Category.build_cache = false
is_risky Category.other_cache = false
is_risky Category.agent_state = false
is_risky Category.unset = false
is_risky Category.ai_logs = true
is_risky (Category.other name) = true

pub data WorktreeStatus : Type 0 where
  orphaned active plain_dir unset : WorktreeStatus
  other : Text → WorktreeStatus

pub data EntryClass : Type 0 where
  live orphaned undetermined unset : EntryClass
  other : Text → EntryClass

abbrev pub category_text : Category → Text
category_text Category.worktree = codes "worktree"
category_text Category.node_modules = codes "node_modules"
category_text Category.build_cache = codes "build-cache"
category_text Category.other_cache = codes "other-cache"
category_text Category.agent_state = codes "agent-state"
category_text Category.ai_logs = codes "ai-logs"
category_text Category.unset = []
category_text (Category.other name) = name

abbrev pub status_text : WorktreeStatus → Text
status_text WorktreeStatus.orphaned = codes "orphaned"
status_text WorktreeStatus.active = codes "active"
status_text WorktreeStatus.plain_dir = codes "plain-dir"
status_text WorktreeStatus.unset = []
status_text (WorktreeStatus.other name) = name

abbrev pub class_text : EntryClass → Text
class_text EntryClass.live = codes "live"
class_text EntryClass.orphaned = codes "orphaned"
class_text EntryClass.undetermined = codes "undetermined"
class_text EntryClass.unset = []
class_text (EntryClass.other name) = name

abbrev pub kind_text : CleanupKind → Text
kind_text CleanupKind.unset = []
kind_text CleanupKind.remove_path = codes "remove-path"
kind_text CleanupKind.command = codes "command"
kind_text (CleanupKind.other name) = name

-- The comparisons with one constant that the source makes.
abbrev pub is_worktree : Category → Bool
is_worktree Category.worktree = true
is_worktree _ = false

abbrev pub is_agent_state : Category → Bool
is_agent_state Category.agent_state = true
is_agent_state _ = false

abbrev pub is_active : WorktreeStatus → Bool
is_active WorktreeStatus.active = true
is_active _ = false

abbrev pub is_orphaned : EntryClass → Bool
is_orphaned EntryClass.orphaned = true
is_orphaned _ = false

abbrev pub is_command : CleanupKind → Bool
is_command CleanupKind.command = true
is_command _ = false

abbrev pub is_remove_path : CleanupKind → Bool
is_remove_path CleanupKind.remove_path = true
is_remove_path _ = false

pub record DebrisInfo : Type 0 where
  pub tool : Tool
  pub category : Category
  pub id : Text
  pub project : Text
  pub source : Text
  pub path : Text
  pub size : ℤ
  pub mod_time : ℤ
  pub path_mod_time : ℤ
  pub status : WorktreeStatus
  pub classification : EntryClass
  pub reason : Text
  pub cleanup_kind : CleanupKind
  pub cleanup_command : List Text
  pub strippable_bytes : ℤ
  pub strippable_paths : List Text
  pub scan_path_identity : Text
  pub scan_path_type : ℕ
  pub scan_path_evidence_required : Bool

pub record PruneOptions : Type 0 where
  pub age : ℤ
  pub categories : List Category
  pub tools : List Tool
  pub dry_run : Bool
  pub interactive : Bool
  pub risky : Bool
  pub force : Bool
  pub include_active_worktrees : Bool
  pub agent_state_min_idle_age : ℤ
  pub relax_cache_age : Bool
  pub pressure_device : Text

-- An item with the fields that a literal leaves out at Go's zero values.
abbrev pub blank_item : DebrisInfo
blank_item = record {
  tool = [];
  category = Category.unset;
  id = [];
  project = [];
  source = [];
  path = [];
  size = pos 0;
  mod_time = pos 0;
  path_mod_time = pos 0;
  status = WorktreeStatus.unset;
  classification = EntryClass.unset;
  reason = [];
  cleanup_kind = CleanupKind.unset;
  cleanup_command = [];
  strippable_bytes = pos 0;
  strippable_paths = [];
  scan_path_identity = [];
  scan_path_type = 0;
  scan_path_evidence_required = false;
}
