-- ===== src/SafeDelete/Resolved.antt =====
-- internal/safedelete/safedelete.go: canonicalize gives canonical absolute paths.
use aibris.Prelude.{
  ℕ, zero, suc, ◌≡◌, ◌≢◌, refl, ap, ◌∙◌, subst, Text, List, [], ◌∷◌, ◌++◌, Bool, true, false, not,
  Option, none, some, if◌then◌else◌, if_either, is_empty, Result, ok, err, arith,
}
use aibris.FilePath.{sep, clean, is_abs, abs_path, join, dir, split_sep, up_to_last_sep, segments}
use aibris.FilePath.Segments.{clean-abs}
use aibris.FilePath.Depth.{IsCanonical, clean-IsCanonical}
use aibris.SafeDelete.{Node, Disk, PathError}
use aibris.SafeDelete.Canonical.{
  Follow, behind_link, at_node, stays_at, names_nothing, resolve_parts, resolve_links_within,
  max_links, canonicalize,
}

root-is_abs : is_abs (sep ∷ []) ≡ true
unfolding is_abs
root-is_abs = refl

abs_path-is_abs : (ws : List Text) → is_abs (abs_path ws) ≡ true
unfolding abs_path is_abs
abs_path-is_abs [] = refl
abs_path-is_abs (w ∷ ws) = refl

clean-is_abs : (p : Text) → is_abs p ≡ true → is_abs (clean p) ≡ true
clean-is_abs p h = ap is_abs (clean-abs p h) ∙ abs_path-is_abs (segments p)

append-is_abs : (p s : Text) → is_abs p ≡ true → is_abs (p ++ s) ≡ true
unfolding is_abs
append-is_abs [] s h = cc
append-is_abs (c ∷ p) s h = h

not_empty : (p : Text) → is_abs p ≡ true → is_empty p ≢ true
unfolding is_abs
not_empty [] h e = cc
not_empty (c ∷ p) h e = cc

join-is_abs : (p part : Text) → is_abs p ≡ true → is_abs (join p part) ≡ true
unfolding join
join-is_abs p part h =
    if_either (λ r. is_abs r ≡ true) (is_empty p) _ _ (λ e. absurd (not_empty p h e))
      λ e.
        if_either (λ r. is_abs r ≡ true) (is_empty part) (clean p) (clean (p ++ sep ∷ part))
          (λ e. clean-is_abs p h)
          (λ e. clean-is_abs (p ++ sep ∷ part) (append-is_abs p (sep ∷ part) h))

up_to_last_sep-is_abs : (p : Text) → is_abs p ≡ true → is_abs (up_to_last_sep p) ≡ true
unfolding up_to_last_sep is_abs
up_to_last_sep-is_abs [] h = cc
up_to_last_sep-is_abs (c ∷ p) h = ground arith

dir-is_abs : (p : Text) → is_abs p ≡ true → is_abs (dir p) ≡ true
unfolding dir
dir-is_abs p h = clean-is_abs (up_to_last_sep p) (up_to_last_sep-is_abs p h)

stays_at-is_abs :
    (part resolved next : Text)
    → is_abs resolved ≡ true
    → is_abs next ≡ true
    → is_abs (stays_at part resolved next) ≡ true
stays_at-is_abs part resolved next h k = ground (arith, dir-is_abs resolved h)

-- A result that, where it is a path, is canonical.
abbrev Lands : Result PathError Text → Type 0
Lands (ok p) = IsCanonical p
Lands (err e) = Unit

abbrev FollowLands : Follow → Type 0
FollowLands none = Unit
FollowLands (some go) =
    (parts : List Text) (resolved : Text) → is_abs resolved ≡ true → Lands (go parts resolved)

at_node-Lands :
    (node : Node) (last : Bool) (rest behind : Result PathError Text)
    → Lands rest
    → Lands behind
    → Lands (at_node node last rest behind)
at_node-Lands Node.missing last rest behind r b = r
at_node-Lands Node.unreadable last rest behind r b = tt
at_node-Lands Node.directory last rest behind r b = r
at_node-Lands Node.file true rest behind r b = r
at_node-Lands Node.file false rest behind r b = tt
at_node-Lands Node.link last rest behind r b = b

behind_link-Lands :
    (follow : Follow) (target : Option Text) (parts : List Text) (resolved : Text)
    → FollowLands follow
    → is_abs resolved ≡ true
    → Lands (behind_link follow target parts resolved)
behind_link-Lands none target parts resolved f h = tt
behind_link-Lands (some go) none parts resolved f h = tt
behind_link-Lands (some go) (some target) parts resolved f h =
    f (split_sep target ++ parts) (if is_abs target then sep ∷ [] else resolved) (
      if_either (λ p. is_abs p ≡ true) (is_abs target) (sep ∷ []) resolved (λ e. root-is_abs)
        (λ e. h))

resolve_parts-Lands :
    (disk : Disk) (follow : Follow)
    → FollowLands follow
    → (parts : List Text) (resolved : Text) → is_abs resolved ≡ true
    → Lands (resolve_parts disk follow parts resolved)
unfolding resolve_parts
resolve_parts-Lands disk follow f [] resolved h = clean-IsCanonical resolved h
resolve_parts-Lands disk follow f (part ∷ parts) resolved h =
    let next = join resolved part in
    let rest =
      resolve_parts-Lands disk follow f parts (stays_at part resolved next)
        (stays_at-is_abs part resolved next h (join-is_abs resolved part h)) in
    if_either Lands (names_nothing part) _ _ (λ e. rest)
      λ e.
        at_node-Lands (disk.lstat next) (is_empty parts) _ _ rest
          (behind_link-Lands follow (disk.readlink next) parts resolved f h)

resolve_links_within-Lands :
    (disk : Disk) (links : ℕ) (parts : List Text) (resolved : Text)
    → is_abs resolved ≡ true
    → Lands (resolve_links_within disk links parts resolved)
unfolding resolve_links_within
resolve_links_within-Lands disk zero = resolve_parts-Lands disk none tt
resolve_links_within-Lands disk (suc links) =
    resolve_parts-Lands disk (some (resolve_links_within disk links))
      (resolve_links_within-Lands disk links)

canonicalize-Lands : (disk : Disk) (path : Text) → Lands (canonicalize disk path)
unfolding canonicalize
canonicalize-Lands disk path =
    if_either Lands (not (is_abs path)) (err PathError.not_absolute) _ (λ e. tt)
      λ e. resolve_links_within-Lands disk max_links (split_sep path) (sep ∷ []) root-is_abs

-- Where canonicalize gives a path, it is absolute and canonical: the separator, then names that are
-- neither empty nor "." nor ".." and have no separator in them.
pub canonicalize-IsCanonical :
    (disk : Disk) (path p : Text) → canonicalize disk path ≡ ok p → IsCanonical p
canonicalize-IsCanonical disk path p e = subst Lands e (canonicalize-Lands disk path)
