-- ===== src/SafeDelete/Passed.antt =====
-- What a passed check of internal/safedelete/safedelete.go means.
use aibris.Prelude.{
  ℕ, ◌≡◌, sym, ap, ◌∙◌, subst, Text, codes, List, [], ◌∷◌, Bool, true, false, ◌||◌, not, text_eq,
  text_eq_iff, is_empty, Option, none, some, Result, ok, ◌>>=◌, ◌>>◌, refuse_if, wrap, >>=-eq-ok,
  wrap-eq-ok, refuse_if-eq-ok, In, arith, Option-cases, inl, inr, ||-false,
}
use aibris.FilePath.{clean, dir, base, join, path_contains, is_abs, rel}
use aibris.SafeDelete.{Disk, Refusal, fold_case}
use aibris.SafeDelete.Canonical.{canonicalize, within, home_rel, inside_or_refuse}
use aibris.SafeDelete.Identity.{existing_path_identity, covers_protected_identity}
use aibris.SafeDelete.Gate.{
  locations, covers_location, check_location, check_locations, in_git_metadata, is_directory, check,
}

pub ok-injective : {E A : Type 0} (a b : A) → ◌≡◌ {A = Result E A} (ok a) (ok b) → a ≡ b
ok-injective a b e = cc

-- What the steps of a passed check found.
pub record Steps (disk : Disk) (home path : Text) : Type 0 where
  pub clean_path : path ≡ clean path
  pub root : Text
  pub root_eq : canonicalize disk home ≡ ok root
  pub relative : Text
  pub canonical : Text
  pub placed_eq : home_rel disk root path ≡ ok (relative, canonical)
  pub candidate : ℕ × Text
  pub located : check_locations disk path canonical candidate (locations disk root) ≡ ok tt
  pub no_metadata :
      (in_git_metadata (fold_case disk relative) || in_git_metadata (fold_case disk path)) ≡ false
  pub no_repository : is_directory (disk.lstat (join canonical (codes ".git"))) ≡ false

not-false : (path : Text) → not (text_eq path (clean path)) ≡ false → path ≡ clean path
not-false path c = (text_eq_iff path (clean path)).0 (ground arith)

pub check-Steps :
    (disk : Disk) (home path : Text) → check disk home path ≡ ok tt → Steps disk home path
unfolding check
check-Steps disk home path h =
    let (c, h1) = refuse_if-eq-ok _ _ _ h in
    let (root, r, h2) = >>=-eq-ok (wrap Refusal.unresolved (canonicalize disk home)) _ h1 in
    let (placed, p, h3) = >>=-eq-ok (home_rel disk root path) _ h2 in
    let (candidate, q, h4) = >>=-eq-ok (existing_path_identity disk placed.1) _ h3 in
    let (_, l, h5) =
      >>=-eq-ok (check_locations disk path placed.1 candidate (locations disk root)) _ h4 in
    let (container, o, h6) =
      >>=-eq-ok (wrap Refusal.unresolved (canonicalize disk (join root (codes "orca/workspaces"))))
        _ h5 in
    let (w, h7) = refuse_if-eq-ok _ _ _ h6 in
    let (g, h8) = refuse_if-eq-ok _ _ _ h7 in
    let (n, _) = refuse_if-eq-ok _ _ _ h8 in
    record {
      clean_path = not-false path c;
      root = root;
      root_eq = wrap-eq-ok Refusal.unresolved (canonicalize disk home) r;
      relative = placed.0;
      canonical = placed.1;
      placed_eq = p;
      candidate = candidate;
      located = l;
      no_metadata = g;
      no_repository = n;
    }

within-contains :
    (disk : Disk) (root path : Text) (canonical : Text) (r : Text × Text)
    → inside_or_refuse canonical (within disk root path) ≡ ok r
    → path_contains root path ≡ true
unfolding within path_contains
within-contains disk root path canonical r h = ground arith

within-rel :
    (disk : Disk) (root path : Text) (canonical : Text) (r : Text × Text)
    → inside_or_refuse canonical (within disk root path) ≡ ok r
    → rel root path ≡ some r.0
unfolding within
within-rel disk root path canonical r h = elim (Option-cases (within disk root path)) [
  | inl e ↦ absurd (ground arith)
  | inr (x, e) ↦
      let same : x ≡ r.0 =
        ap (λ (p : Text × Text). p.0)
          (ok-injective (x, canonical) r (subst (λ o. inside_or_refuse canonical o ≡ ok r) e h)) in
      ground arith
]

inside-canonical :
    (canonical : Text) (o : Option Text) (r : Text × Text)
    → inside_or_refuse canonical o ≡ ok r
    → canonical ≡ r.1
inside-canonical canonical none r h = cc
inside-canonical canonical (some x) r h =
    ap (λ (p : Text × Text). p.1) (ok-injective (x, canonical) r h)

-- The home and the path as they were resolved.
pub home_rel-inside :
    (disk : Disk) (home path relative canonical : Text)
    → home_rel disk home path ≡ ok (relative, canonical)
    → (canonicalize disk path ≡ ok canonical)
      × ((root : Text) × (canonicalize disk home ≡ ok root)
          × (path_contains root canonical ≡ true)
          × (rel root canonical ≡ some relative))
unfolding home_rel
home_rel-inside disk home path relative canonical h =
    let located = λ (c : Text). wrap Refusal.unresolved (canonicalize disk home) >>= λ root.
    inside_or_refuse c (within disk root c) in
    let resolved = wrap Refusal.unresolved (canonicalize disk path) >>= located in
    let (a, h1) =
      refuse_if-eq-ok (is_empty home || not (is_abs home)) Refusal.home_not_absolute
        (refuse_if (not (is_abs path)) Refusal.path_not_absolute >> resolved) h in
    let (b, h2) = refuse_if-eq-ok (not (is_abs path)) Refusal.path_not_absolute resolved h1 in
    let (c, q, h3) = >>=-eq-ok (wrap Refusal.unresolved (canonicalize disk path)) located h2 in
    let (root, r, h4) =
      >>=-eq-ok (wrap Refusal.unresolved (canonicalize disk home))
        (λ root. inside_or_refuse c (within disk root c)) h3 in
    let same = inside-canonical c (within disk root c) (relative, canonical) h4 in
    let inside = within-contains disk root c c (relative, canonical) h4 in
    (
      wrap-eq-ok Refusal.unresolved (canonicalize disk path) q ∙ ap (λ (t : Text). ok t) same,
      (
        root,
        wrap-eq-ok Refusal.unresolved (canonicalize disk home) r,
        ap (path_contains root) (sym same) ∙ inside,
        ap (rel root) (sym same) ∙ within-rel disk root c c (relative, canonical) h4,
      ),
    )

pub check_locations-In :
    (disk : Disk) (path canonical : Text) (candidate : ℕ × Text) (ls : List Text)
    → check_locations disk path canonical candidate ls ≡ ok tt
    → (location : Text) → In location ls
    → check_location disk path canonical candidate location ≡ ok tt
unfolding check_locations
check_locations-In disk path canonical candidate [] h location i = absurd i
check_locations-In disk path canonical candidate (l ∷ ls) h location i =
    let (u, a, rest) = >>=-eq-ok (check_location disk path canonical candidate l) _ h in
    elim i [
      | inl e ↦ ap (check_location disk path canonical candidate) e ∙ a
      | inr j ↦ check_locations-In disk path canonical candidate ls rest location j
    ]

-- The steps of a passed location.
pub check_location-uncovered :
    (disk : Disk) (path canonical : Text) (candidate : ℕ × Text) (location : Text)
    → check_location disk path canonical candidate location ≡ ok tt
    → (parent : Text) × (resolved : Text) × (canonicalize disk (dir location) ≡ ok parent)
      × (canonicalize disk location ≡ ok resolved)
      × (covers_location disk path location (join parent (base location)) resolved ≡ false)
      × (covers_location disk canonical location (join parent (base location)) resolved ≡ false)
      × (covers_protected_identity disk candidate.0 candidate.1 (join parent (base location))
          ≡ ok false)
      × (covers_protected_identity disk candidate.0 candidate.1 resolved ≡ ok false)
unfolding check_location
check_location-uncovered disk path canonical candidate location h =
    let (parent, p, h1) =
      >>=-eq-ok (wrap Refusal.unresolved (canonicalize disk (dir location))) _ h in
    let (resolved, r, h2) = >>=-eq-ok (wrap Refusal.unresolved (canonicalize disk location)) _ h1 in
    let (free, h3) = refuse_if-eq-ok _ _ _ h2 in
    let (a, q, h4) =
      >>=-eq-ok
        (covers_protected_identity disk candidate.0 candidate.1 (join parent (base location))) _
        h3 in
    let (a', h5) = refuse_if-eq-ok _ _ _ h4 in
    let (b, s, h6) =
      >>=-eq-ok (covers_protected_identity disk candidate.0 candidate.1 resolved) _ h5 in
    let (b', _) = refuse_if-eq-ok _ _ _ h6 in
    let here = covers_location disk path location (join parent (base location)) resolved in
    let there = covers_location disk canonical location (join parent (base location)) resolved in
    let (f, g) = ||-false here there free in
    (
      parent,
      resolved,
      wrap-eq-ok Refusal.unresolved (canonicalize disk (dir location)) p,
      wrap-eq-ok Refusal.unresolved (canonicalize disk location) r,
      f,
      g,
      q ∙ ap (λ (t : Bool). ok t) a',
      s ∙ ap (λ (t : Bool). ok t) b',
    )
