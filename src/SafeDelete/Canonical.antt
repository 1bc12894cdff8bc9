-- ===== src/SafeDelete/Canonical.antt =====
-- internal/safedelete/safedelete.go: canonicalize, within and homeRel.
use aibris.Prelude.{
  ℕ, zero, suc, Text, List, [], ◌∷◌, ◌++◌, Bool, ◌||◌, not, Option, none, some, if◌then◌else◌,
  text_eq, is_empty, Result, ok, err, ◌>>=◌, ◌>>◌, refuse_if, wrap,
}
use aibris.FilePath.{sep, dot, dot_dot, clean, is_abs, rel, join, dir, split_sep, stays_below}
use aibris.SafeDelete.{Node, Disk, PathError, Refusal, fold_case}

-- Where a part of the path leads that names no file of its own.
abbrev pub stays_at : Text → Text → Text → Text
stays_at part resolved next =
    if is_empty part || text_eq part dot
    then resolved
    else if text_eq part dot_dot
    then dir resolved
    else next

abbrev pub names_nothing : Text → Bool
names_nothing part = is_empty part || (text_eq part dot || text_eq part dot_dot)

-- Going on behind a link: `follow` is `none` once 255 links were followed.
abbrev pub Follow : Type 0
Follow = Option (List Text → Text → Result PathError Text)

abbrev pub behind_link : Follow → Option Text → List Text → Text → Result PathError Text
behind_link none target parts resolved = err PathError.too_many_links
behind_link (some go) none parts resolved = err PathError.link_unreadable
behind_link (some go) (some target) parts resolved =
    go (split_sep target ++ parts) (if is_abs target then sep ∷ [] else resolved)

-- What follows from the node at the next place: `last` tells that no part is left.
abbrev pub at_node :
    Node → Bool → Result PathError Text → Result PathError Text → Result PathError Text
at_node Node.missing last rest behind = rest
at_node Node.unreadable last rest behind = err PathError.lookup_failed
at_node Node.directory last rest behind = rest
at_node Node.file last rest behind = if last then rest else err PathError.not_a_directory
at_node Node.link last rest behind = behind

-- The loop over the parts.
unfoldable pub resolve_parts : Disk → Follow → List Text → Text → Result PathError Text
resolve_parts disk follow [] resolved = ok (clean resolved)
resolve_parts disk follow (part ∷ parts) resolved =
    let next = join resolved part in
    let rest = resolve_parts disk follow parts (stays_at part resolved next) in
    if names_nothing part
    then rest
    else at_node (disk.lstat next) (is_empty parts) rest
        (behind_link follow (disk.readlink next) parts resolved)

-- The same with a number of links that may still be followed.
unfoldable pub resolve_links_within : Disk → ℕ → List Text → Text → Result PathError Text
resolve_links_within disk zero = resolve_parts disk none
resolve_links_within disk (suc links) = resolve_parts disk (some (resolve_links_within disk links))

abbrev pub max_links : ℕ
max_links = 255

-- canonicalize
unfoldable pub canonicalize : Disk → Text → Result PathError Text
canonicalize disk path =
    if not (is_abs path)
    then err PathError.not_absolute
    else resolve_links_within disk max_links (split_sep path) (sep ∷ [])

-- within: the relative path, where the path is strictly below the root.
unfoldable pub within : Disk → Text → Text → Option Text
within disk root path = elim (rel root path) [
  | none ↦ none
  | some r ↦
      if text_eq r dot || not (stays_below r)
      then none
      else if text_eq (fold_case disk (join root r)) (fold_case disk path)
      then some r
      else none
]

abbrev pub inside_or_refuse : Text → Option Text → Result Refusal (Text × Text)
inside_or_refuse canonical none = err Refusal.outside_home
inside_or_refuse canonical (some r) = ok (r, canonical)

-- homeRel: the relative and the canonical path.
unfoldable pub home_rel : Disk → Text → Text → Result Refusal (Text × Text)
home_rel disk home path = do
  refuse_if (is_empty home || not (is_abs home)) Refusal.home_not_absolute
  refuse_if (not (is_abs path)) Refusal.path_not_absolute
  canonical ← wrap Refusal.unresolved (canonicalize disk path)
  canonical_home ← wrap Refusal.unresolved (canonicalize disk home)
  inside_or_refuse canonical (within disk canonical_home canonical)
