-- ===== src/SafeDelete/Safety.antt =====
-- What Check of internal/safedelete/safedelete.go guarantees of a path that it passes.
use aibris.Prelude.{
  ◌≡◌, ◌≢◌, refl, sym, ap, ◌∙◌, subst, Text, codes, List, [], ◌∷◌, Bool, true, false, ◌||◌,
  ||-false, is_empty, text_eq, some, ok, In, All, arith, any_of-false,
}
use aibris.FilePath.{clean, abs_path, rel, join, path_contains, split_sep, base}
use aibris.FilePath.Containment.{strict_prefix, path_contains-abs_path}
use aibris.FilePath.Depth.{IsCanonical}
use aibris.SafeDelete.{Disk, fold_case}
use aibris.SafeDelete.Canonical.{canonicalize}
use aibris.SafeDelete.Identity.{covers_protected}
use aibris.SafeDelete.Resolved.{canonicalize-IsCanonical}
use aibris.SafeDelete.Covering.{covers_protected_complete}
use aibris.SafeDelete.Folding.{LowersParts, fold_case-uncovered}
use aibris.SafeDelete.Gate.{locations, covers_form, in_git_metadata, is_directory, check}
use aibris.SafeDelete.Passed.{
  Steps, check-Steps, home_rel-inside, check_locations-In, check_location-uncovered, ok-injective,
}

some-injective : (a b : Text) → some a ≡ some b → a ≡ b
some-injective a b e = cc

third : (a b c : Bool) → (a || (b || c)) ≡ false → c ≡ false
third a b c h = ground arith

contained-names :
    (parent target : Text) (cp : IsCanonical parent) (ct : IsCanonical target)
    → path_contains parent target ≡ true
    → is_empty ct.names ≡ false
contained-names parent target cp ct h = prefix_names cp.names ct.names (
    sym (path_contains-abs_path cp.names ct.names cp.are_names ct.are_names)
    ∙ ap (λ (t : Text). path_contains t (abs_path ct.names)) (sym cp.path_eq)
    ∙ ap (path_contains parent) (sym ct.path_eq)
    ∙ h)
  where
    prefix_names : (a b : List Text) → strict_prefix a b ≡ true → is_empty b ≡ false
    prefix_names [] [] k = unfold strict_prefix in cc k
    prefix_names (x ∷ a) [] k = unfold strict_prefix in cc k
    prefix_names a (y ∷ b) k = refl

module _ (disk : Disk) (home path : Text) (passed : check disk home path ≡ ok tt) where
  steps : Steps disk home path
  steps = check-Steps disk home path passed

  -- A path that passes is clean, the home and the path can be resolved, and the resolved path lies
  -- strictly below the home, which is resolved once more for the comparison.
  pub check-inside :
      (path ≡ clean path)
      × ((root : Text) × (canonical : Text) × (home_again : Text) × (canonicalize disk home
            ≡ ok root)
          × (canonicalize disk path ≡ ok canonical)
          × (canonicalize disk root ≡ ok home_again)
          × (path_contains home_again canonical ≡ true))
  check-inside =
      let s = steps in
      let (placed, (again, found, below, _)) =
        home_rel-inside disk s.root path s.relative s.canonical s.placed_eq in
      (s.clean_path, (s.root, s.canonical, again, s.root_eq, placed, found, below))

  -- Neither a path that passes nor the relative path from the resolved home to what it resolves to
  -- has a part ".git" after folding its case, and what it resolves to has no directory ".git" in it.
  pub check-repository :
      (root home_again canonical relative : Text)
      → canonicalize disk home ≡ ok root
      → canonicalize disk root ≡ ok home_again
      → canonicalize disk path ≡ ok canonical
      → rel home_again canonical ≡ some relative
      → All (λ part. text_eq (codes ".git") part ≡ false) (split_sep (fold_case disk relative))
        × All (λ part. text_eq (codes ".git") part ≡ false) (split_sep (fold_case disk path))
        × (is_directory (disk.lstat (join canonical (codes ".git"))) ≡ false)
  unfolding in_git_metadata
  check-repository root home_again canonical relative home_eq again_eq path_eq relative_eq =
      let s = steps in
      let (placed, (again, found, _, r)) =
        home_rel-inside disk s.root path s.relative s.canonical s.placed_eq in
      let same : s.canonical ≡ canonical =
        ok-injective s.canonical canonical (sym placed ∙ path_eq) in
      let same_root : s.root ≡ root = ok-injective s.root root (sym s.root_eq ∙ home_eq) in
      let same_home : again ≡ home_again =
        ok-injective again home_again (sym found ∙ ap (canonicalize disk) same_root ∙ again_eq) in
      let same_relative : s.relative ≡ relative = some-injective s.relative relative (
        sym r ∙ ap (rel again) same ∙ ap (λ (t : Text). rel t canonical) same_home ∙ relative_eq) in
      let (below, parts) =
        ||-false (in_git_metadata (fold_case disk s.relative))
          (in_git_metadata (fold_case disk path)) s.no_metadata in
      let no_git = any_of-false (text_eq (codes ".git")) in
      (
        no_git (split_sep (fold_case disk relative))
            (ap (λ (t : Text). in_git_metadata (fold_case disk t)) (sym same_relative) ∙ below),
        no_git (split_sep (fold_case disk path)) parts,
        ap (λ (t : Text). is_directory (disk.lstat (join t (codes ".git")))) (sym same)
            ∙ s.no_repository,
      )

  module _ (lower_join : LowersParts disk) (location : Text) (root canonical resolved : Text)
      (home_eq : canonicalize disk home ≡ ok root) (path_eq : canonicalize disk path ≡ ok canonical)
      (location_eq : canonicalize disk location ≡ ok resolved)
      (listed : In location (locations disk root)) where
    -- Where lower-casing works on the parts of a path one by one: a protected location, resolved, is neither what a path that
    -- passes resolves to nor below it.
    pub check-protected : (canonical ≢ resolved) × (path_contains canonical resolved ≡ false)
    check-protected =
        let s = steps in
        let (placed, (again, found, below, _)) =
          home_rel-inside disk s.root path s.relative s.canonical s.placed_eq in
        let same : s.canonical ≡ canonical =
          ok-injective s.canonical canonical (sym placed ∙ path_eq) in
        let same_root : root ≡ s.root = ok-injective root s.root (sym home_eq ∙ s.root_eq) in
        let listed' : In location (locations disk s.root) =
          subst (λ r. In location (locations disk r)) same_root listed in
        let (parent, there, p, r, _, free, _, _) =
          check_location-uncovered disk path s.canonical s.candidate location (
            check_locations-In disk path s.canonical s.candidate (locations disk s.root) s.located
              location listed') in
        let at : there ≡ resolved = ok-injective there resolved (sym r ∙ location_eq) in
        let uncovered : covers_protected s.canonical there ≡ false =
          fold_case-uncovered disk lower_join s.canonical there (
            third (covers_form disk s.canonical location)
              (covers_form disk s.canonical (join parent (base location)))
              (covers_form disk s.canonical there) free) in
        let canonical_place = canonicalize-IsCanonical disk path s.canonical placed in
        let canonical_home = canonicalize-IsCanonical disk s.root again found in
        let canonical_location = canonicalize-IsCanonical disk location there r in
        let (apart, outside) =
          covers_protected_complete s.canonical there canonical_place canonical_location
            (contained-names again s.canonical canonical_home canonical_place below) uncovered in
        (
          λ e. apart (same ∙ e ∙ sym at),
          ap (path_contains canonical) (sym at)
              ∙ ap (λ (t : Text). path_contains t there) (sym same)
              ∙ outside,
        )
