-- ===== src/Cleaner/SafePath.antt =====
-- internal/cleaner/cleaner_helpers.go: which paths may be deleted at all. The roots of agent-state
-- stores come from the providers: an argument, `none` where they cannot be told.
use aibris.Prelude.{
  ◌≡◌, Text, codes, List, [], ◌∷◌, ◌++◌, Bool, true, false, ◌&&◌, ◌||◌, not, Option, none, some,
  if◌then◌else◌, text_eq, has_prefix, is_empty, any_of, arith, Option-cases, ◌⊎◌, inl, inr,
  Bool-cases,
}
use aibris.FilePath.{sep, dot, clean, is_abs, rel, join, dir, split_sep, stays_below, path_contains}
use aibris.Types.{WorktreeStatus, DebrisInfo, is_worktree, is_agent_state}
use aibris.Cleaner.Items.{FileSystem}
use aibris.Cleaner.Eligibility.{Host, go_build_cache_target, catalog_cache_target}

-- safePathPrefixes
abbrev pub safe_path_prefixes : List Text
safe_path_prefixes =
    codes ".codex"
    ∷ codes ".claude"
    ∷ codes ".cursor"
    ∷ codes ".cache"
    ∷ codes ".npm"
    ∷ codes ".gradle"
    ∷ codes ".cargo"
    ∷ codes "Caches"
    ∷ codes "projects"
    ∷ codes ".codeium"
    ∷ codes "node_modules"
    ∷ codes "DerivedData"
    ∷ codes ".dartServer"
    ∷ []

abbrev pub or_else : Option Text → Text → Text
or_else none default = default
or_else (some text) default = clean text

abbrev pub is_found : Option Text → Bool
is_found none = false
is_found (some text) = true

-- The home behind its links, as safeHomeRel resolves it.
unfoldable pub resolved_home : FileSystem → Text → Text
resolved_home fs home = or_else (fs.eval_symlinks (clean home)) (clean home)

-- A target that cannot be resolved, moved along with the home that holds it.
unfoldable pub moved_target : FileSystem → Text → Text → Option Text
moved_target fs home target =
    if is_found (fs.eval_symlinks (clean home)) && has_prefix target (clean home ++ sep ∷ [])
    then elim (rel (clean home) target) [
      | none ↦ none
      | some r ↦ some (join (resolved_home fs home) r)
    ]
    else some target

-- The target, as safeHomeRel resolves it.
unfoldable pub resolved_target : FileSystem → Text → Text → Option Text
resolved_target fs home target = elim (fs.eval_symlinks (clean target)) [
  | none ↦ moved_target fs home (clean target)
  | some resolved ↦ some (clean resolved)
]

unfoldable pub below_home : Text → Text → Option Text
below_home home target =
    if not (text_eq target home) && not (has_prefix target (home ++ sep ∷ []))
    then none
    else elim (rel home target) [
      | none ↦ none
      | some r ↦ if text_eq r dot || not (stays_below r) then none else some r
    ]

-- safeHomeRel
unfoldable pub safe_home_rel : FileSystem → Text → Text → Option Text
safe_home_rel fs home target =
    if is_empty home || not (is_abs target) then none else elim (resolved_target fs home target) [
      | none ↦ none
      | some resolved ↦ below_home (resolved_home fs home) resolved
    ]

-- IsSafePath
unfoldable pub is_safe_path : FileSystem → Text → Text → Bool
is_safe_path fs home target = elim (safe_home_rel fs home target) [
  | none ↦ false
  | some r ↦ any_of (λ part. any_of (text_eq part) safe_path_prefixes) (split_sep r)
]

-- agentStateStoreEntry
unfoldable pub agent_state_store_entry : Option (List Text) → DebrisInfo → Bool
agent_state_store_entry none item = false
agent_state_store_entry (some roots) item =
    is_agent_state item.category
    && any_of (λ root. text_eq (clean root) (dir (clean item.path))) roots

abbrev pub is_deletable_status : WorktreeStatus → Bool
is_deletable_status WorktreeStatus.active = true
is_deletable_status WorktreeStatus.orphaned = true
is_deletable_status _ = false

-- IsSafeTarget
unfoldable pub is_safe_target : Host → FileSystem → Option (List Text) → Text → DebrisInfo → Bool
is_safe_target host fs roots home item =
    if is_worktree item.category
    then (if not (is_deletable_status item.status)
        then false
        else is_found (safe_home_rel fs home item.path))
    else if go_build_cache_target item
    then is_found (safe_home_rel fs home item.path) && catalog_cache_target host item
    else if catalog_cache_target host item || agent_state_store_entry roots item
    then is_found (safe_home_rel fs home item.path)
    else is_safe_path fs home item.path

-- Where a target lies, by what the links of the home and of the target resolve to, then the two
-- as texts. Only the resolved home is known where the target does not resolve: then the text of the
-- target lies below it, or what follows the home in that text does once it is put below it.
abbrev pub LiesBelow : Option Text → Option Text → Text → Text → Type 0
LiesBelow none none home target = path_contains home target ≡ true
LiesBelow none (some resolved) home target = path_contains home (clean resolved) ≡ true
LiesBelow (some root) none home target =
    (path_contains (clean root) target ≡ true)
    ⊎ ((r : Text) × (rel home target ≡ some r)
        × (path_contains (clean root) (join (clean root) r) ≡ true))
LiesBelow (some root) (some resolved) home target =
    path_contains (clean root) (clean resolved) ≡ true

abbrev pub BelowHome : FileSystem → Text → Text → Type 0
BelowHome fs home target =
    (is_abs target ≡ true)
    × LiesBelow (fs.eval_symlinks (clean home)) (fs.eval_symlinks (clean target)) (clean home)
        (clean target)

below_home-contains :
    (home target : Text)
    → is_found (below_home home target) ≡ true
    → path_contains home target ≡ true
unfolding below_home path_contains
below_home-contains home target h = ground arith

-- The target as resolved, wherever it is below the home as resolved.
resolved_target-LiesBelow :
    (fs : FileSystem) (home target t : Text)
    → resolved_target fs home target ≡ some t
    → path_contains (resolved_home fs home) t ≡ true
    → LiesBelow
        (fs.eval_symlinks (clean home))
        (fs.eval_symlinks (clean target))
        (clean home)
        (clean target)
unfolding resolved_target moved_target resolved_home
resolved_target-LiesBelow fs home target t e below =
    elim (Option-cases (fs.eval_symlinks (clean home))) [
      | inl h ↦ elim (Option-cases (fs.eval_symlinks (clean target))) [
        | inl k ↦ rw (h, k) (ground arith)
        | inr (resolved, k) ↦ rw (h, k) (ground arith)
      ]
      | inr (root, h) ↦ elim (Option-cases (fs.eval_symlinks (clean target))) [
        | inl k ↦
            rw (h, k)
              (elim (Option-cases (rel (clean home) (clean target))) [
                | inl n ↦ inl (ground arith)
                | inr (r, n) ↦
                    elim (Bool-cases (has_prefix (clean target) (clean home ++ sep ∷ []))) [
                      | inl b ↦ inr (r, n, ground arith)
                      | inr b ↦ inl (ground arith)
                    ]
              ])
        | inr (resolved, k) ↦ rw (h, k) (ground arith)
      ]
    ]

safe_home_rel-BelowHome :
    (fs : FileSystem) (home target : Text)
    → is_found (safe_home_rel fs home target) ≡ true
    → BelowHome fs home target
unfolding safe_home_rel
safe_home_rel-BelowHome fs home target h = elim (Option-cases (resolved_target fs home target)) [
  | inl e ↦ absurd (ground arith)
  | inr (t, e) ↦ (
    ground arith,
    resolved_target-LiesBelow fs home target t e
        (below_home-contains (resolved_home fs home) t (ground arith)),
  )
]

is_safe_target-found :
    (host : Host) (fs : FileSystem) (roots : Option (List Text)) (home : Text) (item : DebrisInfo)
    → is_safe_target host fs roots home item ≡ true
    → is_found (safe_home_rel fs home item.path) ≡ true
unfolding is_safe_target is_safe_path
is_safe_target-found host fs roots home item h = ground arith

-- A target that passes the safety test is absolute, and where its links resolve, what they resolve
-- to lies strictly below the home, resolved where its own links do. Where the target does not
-- resolve, its text lies strictly below the home, or below the resolved home, or what follows the
-- home in that text does once it is put below the resolved home. A worktree passes only if it is
-- active or orphaned.
pub is_safe_target-BelowHome :
    (host : Host) (fs : FileSystem) (roots : Option (List Text)) (home : Text) (item : DebrisInfo)
    → is_safe_target host fs roots home item ≡ true
    → BelowHome fs home item.path
      × ((is_worktree item.category ≡ false) ⊎ (is_deletable_status item.status ≡ true))
unfolding is_safe_target
is_safe_target-BelowHome host fs roots home item h = (
  safe_home_rel-BelowHome fs home item.path (is_safe_target-found host fs roots home item h),
  elim (Bool-cases (is_worktree item.category)) [ inl e ↦ inr (ground arith) | inr e ↦ inl e ],
)
