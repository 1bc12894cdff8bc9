-- ===== src/SafeDelete.antt =====
-- internal/safedelete/safedelete.go: the gate that every deletion passes, on Unix. `check` is Check;
-- an error is the case that it stands for. Lookups are cached by the source within one Check, so a
-- disk that answers the same throughout is one parameter.
pub mod Canonical
pub mod Identity
pub mod Gate
pub mod Passed
pub mod Resolved
pub mod Covering
pub mod Folding
pub mod Safety
pub mod Climb
pub mod Examples
use aibris.Prelude.{ℕ, Text, List, Option, Bool, if◌then◌else◌}

-- What os.Lstat finds: an irregular file counts as a link.
pub data Node : Type 0 where
  link directory file missing unreadable : Node

-- What os.Stat finds: the identity that os.SameFile compares.
pub data Found : Type 0 where
  found : ℕ → Found
  absent failed : Found

-- The disk, whether the platform is darwin or windows, strings.ToLower, the homes that codexhome finds for Codex, and the
-- variable CLAUDE_CONFIG_DIR.
pub record Disk : Type 0 where
  pub lstat : Text → Node
  pub readlink : Text → Option Text
  pub stat : Text → Found
  pub folds_case : Bool
  pub to_lower : Text → Text
  pub codex_homes : List Text
  pub claude_config_dir : Text

-- foldCase
unfoldable pub fold_case : Disk → Text → Text
fold_case disk text = if disk.folds_case then disk.to_lower text else text

-- Why a path cannot be resolved.
pub data PathError : Type 0 where
  not_absolute not_a_directory lookup_failed too_many_links link_unreadable : PathError

-- Why a deletion is refused.
pub data Refusal : Type 0 where
  not_clean home_not_absolute path_not_absolute outside_home no_ancestor identity_unavailable
        protected_location worktree_container git_metadata primary_repository home_unavailable :
      Refusal
  unresolved : PathError → Refusal
