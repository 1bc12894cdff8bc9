-- ===== src/SafeDelete/Examples.antt =====
-- Concrete runs of the theorems about safe deletion, and tests.
use aibris.Prelude.{
  ℕ, ltb, map, ap, ◌&&◌, ◌+◌, ◌≡◌, ◌≢◌, refl, arith, Text, codes, [], ◌∷◌, true, false, ◌||◌, none,
  some, if◌then◌else◌, text_eq, has_prefix, any_of, All, inl, In, ok, err,
}
use aibris.Cleaner.Items.{trim_space}
use aibris.FilePath.{
  clean, is_abs, path_contains, rel, rel_elements, elements, stays_below, dir, base, join, abs_path,
  up_to_last_sep, trim_right_sep, last_word, split_sep,
}
use aibris.SafeDelete.{Node, Found, found, absent, Disk, Refusal, fold_case}
use aibris.SafeDelete.Canonical.{
  canonicalize, home_rel, within, resolve_parts, resolve_links_within,
}
use aibris.SafeDelete.Identity.{
  covers_protected, climb, climb_from, existing_path_identity, covers_protected_identity,
  visit_existing,
}
use aibris.FilePath.Segments.{IsName}
use aibris.FilePath.Depth.{IsCanonical}
use aibris.SafeDelete.Resolved.{canonicalize-IsCanonical}
use aibris.SafeDelete.Folding.{LowersParts}
use aibris.SafeDelete.Covering.{covers_protected_complete}
use aibris.SafeDelete.Safety.{check-inside, check-repository, check-protected}
use aibris.SafeDelete.Climb.{climb_from-enough}
use aibris.SafeDelete.Gate.{
  locations, relocated_homes, in_git_metadata, is_directory, check, check_location, check_locations,
}

-- A home with a worktree in it, and nothing else.
abbrev node_at : Text → Node
node_at p =
    if text_eq p (codes "/h") || (text_eq p (codes "/h/w") || text_eq p (codes "/h/w/a"))
    then Node.directory
    else if text_eq p (codes "/h/l")
    then Node.link
    else Node.missing

abbrev found_at : Text → Found
found_at p =
    if text_eq p (codes "/h/w/a")
    then found 3
    else if text_eq p (codes "/h/w")
    then found 2
    else if text_eq p (codes "/h")
    then found 1
    else if text_eq p (codes "/")
    then found 0
    else absent

-- Lower-casing of ASCII letters.
abbrev lower_letter : ℕ → ℕ
lower_letter c = if ltb 64 c && ltb c 91 then c + 32 else c

-- A disk that folds case.
abbrev small : Disk
small = record {
  lstat = node_at;
  readlink = λ p. if text_eq p (codes "/h/l") then some (codes "w/a") else none;
  stat = found_at;
  folds_case = true;
  to_lower = map lower_letter;
  codex_homes = [];
  claude_config_dir = [];
}

abbrev home : Text
home = codes "/h"

abbrev tree : Text
tree = codes "/h/w/a"

tree-passes : check small home tree ≡ ok tt
unfolding check fold_case text_eq clean canonicalize resolve_links_within resolve_parts join
    home_rel within rel rel_elements elements stays_below has_prefix existing_path_identity climb
    check_locations trim_space abs_path base dir is_abs last_word split_sep trim_right_sep
    up_to_last_sep any_of check_location in_git_metadata locations relocated_homes covers_protected
    covers_protected_identity aibris.Cleaner.Items.trim_left_space
    aibris.Cleaner.Items.trim_right_space aibris.FilePath.back aibris.FilePath.clean_step
    aibris.FilePath.join_sep aibris.FilePath.resolve aibris.FilePath.segments
tree-passes = refl

home-resolves : canonicalize small home ≡ ok home
unfolding text_eq clean canonicalize resolve_links_within resolve_parts join dir is_abs split_sep
    abs_path aibris.FilePath.back aibris.FilePath.clean_step aibris.FilePath.join_sep
    aibris.FilePath.resolve aibris.FilePath.segments
home-resolves = refl

tree-resolves : canonicalize small tree ≡ ok tree
unfolding text_eq clean canonicalize resolve_links_within resolve_parts join dir is_abs split_sep
    abs_path aibris.FilePath.back aibris.FilePath.clean_step aibris.FilePath.join_sep
    aibris.FilePath.resolve aibris.FilePath.segments
tree-resolves = refl

abbrev desktop : Text
desktop = codes "/h/Desktop"

desktop-resolves : canonicalize small desktop ≡ ok desktop
unfolding text_eq clean canonicalize resolve_links_within resolve_parts join dir is_abs split_sep
    abs_path aibris.FilePath.back aibris.FilePath.clean_step aibris.FilePath.join_sep
    aibris.FilePath.resolve aibris.FilePath.segments
desktop-resolves = refl

desktop-listed : In desktop (locations small home)
unfolding locations relocated_homes trim_space aibris.Cleaner.Items.trim_left_space
    aibris.Cleaner.Items.trim_right_space join clean is_abs split_sep abs_path aibris.FilePath.back
    aibris.FilePath.clean_step aibris.FilePath.join_sep aibris.FilePath.resolve
    aibris.FilePath.segments text_eq
desktop-listed = inl refl

-- A link is followed.
link-resolves : canonicalize small (codes "/h/l/b") ≡ ok (codes "/h/w/a/b")
unfolding text_eq clean canonicalize resolve_links_within resolve_parts join dir is_abs split_sep
    abs_path aibris.FilePath.back aibris.FilePath.clean_step aibris.FilePath.join_sep
    aibris.FilePath.resolve aibris.FilePath.segments
link-resolves = refl

desktop-refused : check small home desktop ≡ err Refusal.protected_location
unfolding check fold_case text_eq clean canonicalize resolve_links_within resolve_parts join
    home_rel within rel rel_elements elements stays_below has_prefix existing_path_identity climb
    check_locations trim_space abs_path base dir is_abs last_word split_sep trim_right_sep
    up_to_last_sep any_of check_location in_git_metadata locations relocated_homes covers_protected
    covers_protected_identity aibris.Cleaner.Items.trim_left_space
    aibris.Cleaner.Items.trim_right_space aibris.FilePath.back aibris.FilePath.clean_step
    aibris.FilePath.join_sep aibris.FilePath.resolve aibris.FilePath.segments
desktop-refused = refl

-- Another spelling of the same place.
lower_desktop-refused : check small home (codes "/h/desktop") ≡ err Refusal.protected_location
unfolding check fold_case text_eq clean canonicalize resolve_links_within resolve_parts join
    home_rel within rel rel_elements elements stays_below has_prefix existing_path_identity climb
    check_locations trim_space abs_path base dir is_abs last_word split_sep trim_right_sep
    up_to_last_sep any_of check_location in_git_metadata locations relocated_homes covers_protected
    covers_protected_identity aibris.Cleaner.Items.trim_left_space
    aibris.Cleaner.Items.trim_right_space aibris.FilePath.back aibris.FilePath.clean_step
    aibris.FilePath.join_sep aibris.FilePath.resolve aibris.FilePath.segments
lower_desktop-refused = refl

home-refused : check small home home ≡ err Refusal.outside_home
unfolding check fold_case text_eq clean canonicalize resolve_links_within resolve_parts join
    home_rel within rel rel_elements elements stays_below has_prefix existing_path_identity climb
    check_locations trim_space abs_path base dir is_abs last_word split_sep trim_right_sep
    up_to_last_sep any_of check_location in_git_metadata locations relocated_homes covers_protected
    covers_protected_identity aibris.Cleaner.Items.trim_left_space
    aibris.Cleaner.Items.trim_right_space aibris.FilePath.back aibris.FilePath.clean_step
    aibris.FilePath.join_sep aibris.FilePath.resolve aibris.FilePath.segments
home-refused = refl

metadata-refused : check small home (codes "/h/w/.git/x") ≡ err Refusal.git_metadata
unfolding check fold_case text_eq clean canonicalize resolve_links_within resolve_parts join
    home_rel within rel rel_elements elements stays_below has_prefix existing_path_identity climb
    check_locations trim_space abs_path base dir is_abs last_word split_sep trim_right_sep
    up_to_last_sep any_of check_location in_git_metadata locations relocated_homes covers_protected
    covers_protected_identity aibris.Cleaner.Items.trim_left_space
    aibris.Cleaner.Items.trim_right_space aibris.FilePath.back aibris.FilePath.clean_step
    aibris.FilePath.join_sep aibris.FilePath.resolve aibris.FilePath.segments
metadata-refused = refl

canonicalize-IsCanonical_example : IsCanonical tree
canonicalize-IsCanonical_example = canonicalize-IsCanonical small tree tree tree-resolves

tree-IsCanonical : IsCanonical tree
tree-IsCanonical = canonicalize-IsCanonical small tree tree tree-resolves

desktop-IsCanonical : IsCanonical desktop
desktop-IsCanonical = canonicalize-IsCanonical small desktop desktop desktop-resolves

climb_from-enough_example :
    climb 9 (visit_existing small) tree [] ≡ climb_from (visit_existing small) tree
climb_from-enough_example =
    climb_from-enough (visit_existing small) tree tree-IsCanonical 8 (omega arith)

check-inside_example :
    (tree ≡ clean tree)
    × ((root : Text) × (canonical : Text) × (home_again : Text) × (canonicalize small home
          ≡ ok root)
        × (canonicalize small tree ≡ ok canonical)
        × (canonicalize small root ≡ ok home_again)
        × (path_contains home_again canonical ≡ true))
check-inside_example = check-inside small home tree tree-passes

tree-relative : rel home tree ≡ some (codes "w/a")
unfolding rel rel_elements elements text_eq clean is_abs split_sep abs_path aibris.FilePath.back
    aibris.FilePath.clean_step aibris.FilePath.join_sep aibris.FilePath.resolve
    aibris.FilePath.segments
tree-relative = refl

check-repository_example :
    All (λ part. text_eq (codes ".git") part ≡ false) (split_sep (fold_case small (codes "w/a")))
    × All (λ part. text_eq (codes ".git") part ≡ false) (split_sep (fold_case small tree))
    × (is_directory (small.lstat (join tree (codes ".git"))) ≡ false)
check-repository_example =
    check-repository small home tree tree-passes home home tree (codes "w/a") home-resolves
      home-resolves tree-resolves tree-relative

lowered : LowersParts small
lowered [] b = refl
lowered (c ∷ a) b = ap (λ (t : Text). lower_letter c ∷ t) (lowered a b)

check-protected_example : (tree ≢ desktop) × (path_contains tree desktop ≡ false)
check-protected_example =
    check-protected small home tree tree-passes lowered desktop home tree desktop home-resolves
      tree-resolves desktop-resolves desktop-listed

h-IsName : IsName (codes "h")
unfolding text_eq
h-IsName = record { not_empty = refl; not_dot = refl; not_dot_dot = refl; no_sep = refl }

w-IsName : IsName (codes "w")
unfolding text_eq
w-IsName = record { not_empty = refl; not_dot = refl; not_dot_dot = refl; no_sep = refl }

h-uncovered : covers_protected (codes "/h") (codes "/w") ≡ false
unfolding covers_protected text_eq has_prefix
h-uncovered = refl

covers_protected_complete_example :
    (codes "/h" ≢ codes "/w") × (path_contains (codes "/h") (codes "/w") ≡ false)
unfolding abs_path
covers_protected_complete_example =
    covers_protected_complete (codes "/h") (codes "/w")
      (record { names = codes "h" ∷ []; are_names = (h-IsName, tt); path_eq = refl })
      (record { names = codes "w" ∷ []; are_names = (w-IsName, tt); path_eq = refl }) refl
      h-uncovered
