-- ===== src/SafeDelete/Gate.antt =====
-- internal/safedelete/safedelete.go: Check, RemoveAll and the protected locations.
use aibris.Prelude.{
  ℕ, Text, codes, List, [], ◌∷◌, ◌++◌, map, Bool, true, false, ◌||◌, not, if◌then◌else◌, is_empty,
  text_eq, any_of, Option, none, some, Result, ok, err, ◌>>=◌, ◌>>◌, refuse_if, wrap,
}
use aibris.Cleaner.Items.{trim_space}
use aibris.FilePath.{clean, is_abs, dir, base, join, split_sep}
use aibris.SafeDelete.{Node, Disk, Refusal, fold_case}
use aibris.SafeDelete.Canonical.{canonicalize, home_rel}
use aibris.SafeDelete.Identity.{covers_protected, existing_path_identity, covers_protected_identity}

-- protected: user content, platform state, credentials, tool homes and the stores of agents.
abbrev pub protected : List Text
protected =
    codes "Desktop"
    ∷ codes "Documents"
    ∷ codes "Downloads"
    ∷ codes "Pictures"
    ∷ codes "Movies"
    ∷ codes "Music"
    ∷ codes "Public"
    ∷ codes "Applications"
    ∷ codes "OneDrive"
    ∷ codes "Dropbox"
    ∷ codes "Google Drive"
    ∷ codes "Library"
    ∷ codes "Library/Application Support"
    ∷ codes "Library/Preferences"
    ∷ codes "Library/Keychains"
    ∷ codes "Library/Mobile Documents"
    ∷ codes "Library/CloudStorage"
    ∷ codes "Library/Mail"
    ∷ codes "Library/Messages"
    ∷ codes "Library/Containers"
    ∷ codes "Library/Group Containers"
    ∷ codes "Library/Caches"
    ∷ codes "Library/Developer"
    ∷ codes "AppData"
    ∷ codes "AppData/Local"
    ∷ codes "AppData/Roaming"
    ∷ codes "AppData/LocalLow"
    ∷ codes ".ssh"
    ∷ codes ".gnupg"
    ∷ codes ".aws"
    ∷ codes ".azure"
    ∷ codes ".kube"
    ∷ codes ".docker"
    ∷ codes ".password-store"
    ∷ codes ".config"
    ∷ codes ".local"
    ∷ codes ".local/bin"
    ∷ codes ".local/share"
    ∷ codes ".local/state"
    ∷ codes ".cache"
    ∷ codes ".npm"
    ∷ codes ".gradle"
    ∷ codes ".cargo"
    ∷ codes ".rustup"
    ∷ codes "go"
    ∷ codes ".pub-cache"
    ∷ codes ".codex"
    ∷ codes ".claude"
    ∷ codes ".cursor"
    ∷ codes ".codeium"
    ∷ codes ".gemini"
    ∷ codes ".grok"
    ∷ codes ".vscode"
    ∷ codes ".codex/worktrees"
    ∷ codes ".codex/sessions"
    ∷ codes ".claude/projects"
    ∷ codes ".cursor/projects"
    ∷ codes ".grok/sessions"
    ∷ codes ".relay"
    ∷ codes ".relay/worktrees"
    ∷ codes ".gstack"
    ∷ codes ".gstack/worktrees"
    ∷ codes ".config/superpowers"
    ∷ codes ".config/superpowers/worktrees"
    ∷ codes "orca"
    ∷ codes "orca/workspaces"
    ∷ []

abbrev pub codex_stores : List Text → List Text
codex_stores [] = []
codex_stores (home ∷ homes) =
    if not (is_abs home)
    then codex_stores homes
    else home ∷ join home (codes "worktrees") ∷ join home (codes "sessions") ∷ codex_stores homes

abbrev pub claude_stores : Text → List Text
claude_stores entry =
    if is_empty entry || not (is_abs entry) then [] else entry ∷ join entry (codes "projects") ∷ []

-- relocatedHomes
unfoldable pub relocated_homes : Disk → List Text
relocated_homes disk =
    codex_stores disk.codex_homes ++ claude_stores (trim_space disk.claude_config_dir)

-- The locations that a target may neither be nor contain, for a canonical home.
unfoldable pub locations : Disk → Text → List Text
locations disk home = relocated_homes disk ++ map (join home) protected

abbrev pub covers_form : Disk → Text → Text → Bool
covers_form disk target form = covers_protected (fold_case disk target) (fold_case disk form)

-- The paths compared with one location: as spelled, at its physical place, and resolved.
abbrev pub covers_location : Disk → Text → Text → Text → Text → Bool
covers_location disk target location physical resolved =
    covers_form disk target location
    || (covers_form disk target physical || covers_form disk target resolved)

-- The body of the loop over the locations.
unfoldable pub check_location : Disk → Text → Text → ℕ × Text → Text → Result Refusal (Unit {0})
check_location disk path canonical candidate location = do
  parent ← wrap Refusal.unresolved (canonicalize disk (dir location))
  resolved ← wrap Refusal.unresolved (canonicalize disk location)
  refuse_if
      (covers_location disk path location (join parent (base location)) resolved
        || covers_location disk canonical location (join parent (base location)) resolved)
      Refusal.protected_location
  at_place ← covers_protected_identity disk candidate.0 candidate.1 (join parent (base location))
  refuse_if at_place Refusal.protected_location
  behind_links ← covers_protected_identity disk candidate.0 candidate.1 resolved
  refuse_if behind_links Refusal.protected_location
  ok tt

unfoldable pub check_locations :
    Disk → Text → Text → ℕ × Text → List Text → Result Refusal (Unit {0})
check_locations disk path canonical candidate [] = ok tt
check_locations disk path canonical candidate (location ∷ rest) =
    check_location disk path canonical candidate location
    >> check_locations disk path canonical candidate rest

-- A part of the path, split at separators, is ".git".
unfoldable pub in_git_metadata : Text → Bool
in_git_metadata path = any_of (text_eq (codes ".git")) (split_sep path)

abbrev pub is_directory : Node → Bool
is_directory Node.directory = true
is_directory _ = false

-- Check
unfoldable pub check : Disk → Text → Text → Result Refusal (Unit {0})
check disk home path = do
  refuse_if (not (text_eq path (clean path))) Refusal.not_clean
  root ← wrap Refusal.unresolved (canonicalize disk home)
  placed ← home_rel disk root path
  candidate ← existing_path_identity disk placed.1
  check_locations disk path placed.1 candidate (locations disk root)
  container ← wrap Refusal.unresolved (canonicalize disk (join root (codes "orca/workspaces")))
  refuse_if (text_eq (fold_case disk (dir placed.1)) (fold_case disk container))
      Refusal.worktree_container
  refuse_if (in_git_metadata (fold_case disk placed.0) || in_git_metadata (fold_case disk path))
      Refusal.git_metadata
  refuse_if (is_directory (disk.lstat (join placed.1 (codes ".git")))) Refusal.primary_repository
  ok tt

-- RemoveAll, with os.RemoveAll as an argument: the new state of the disk, or a refusal.
unfoldable pub remove_all : {S : Type 0} → Disk → (Text → S) → Text → Text → Result Refusal S
remove_all disk remove home path = do check disk home path; ok (remove path)

-- RemoveAllUnderHome; `none` is a home directory that is not available.
unfoldable pub remove_all_under_home :
    {S : Type 0} → Disk → (Text → S) → Option Text → Text → Result Refusal S
remove_all_under_home disk remove none path = err Refusal.home_unavailable
remove_all_under_home disk remove (some home) path = remove_all disk remove home path

-- RemoveAllIn; `remove` is the RemoveAll of the open root.
unfoldable pub remove_all_in :
    {S : Type 0} → Disk → (Text → S) → Text → Text → Text → Result Refusal S
remove_all_in disk remove home path relative = do check disk home path; ok (remove relative)
