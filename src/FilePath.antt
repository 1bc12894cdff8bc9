-- ===== src/FilePath.antt =====
-- The slash-separated paths of Go's path/filepath on Unix, as far as the source uses them: Clean,
-- IsAbs and Rel, and the containment tests that internal/cleaner/overlap.go (PathContains) and
-- internal/adapter/util.go (IsWithin) build on Rel. The Windows branches are left out.
pub mod Examples
pub mod Parent
pub mod Segments
pub mod Containment
pub mod Depth
use aibris.Prelude.{
  ℕ, Text, codes, List, [], ◌∷◌, ◌++◌, map, reverse, Bool, true, false, not, ◌&&◌, ◌||◌, Option,
  none, some, ◌==◌, ◌+◌, if◌then◌else◌, text_eq, has_prefix, is_empty,
}

-- The byte '/'.
abbrev pub sep : ℕ
sep = 47

abbrev pub dot : Text
dot = codes "."

abbrev pub dot_dot : Text
dot_dot = codes ".."

abbrev pub extend : ℕ → List Text → List Text
extend c [] = (c ∷ []) ∷ []
extend c (w ∷ ws) = (c ∷ w) ∷ ws

-- strings.Split(s, "/")
unfoldable pub split_sep : Text → List Text
split_sep [] = [] ∷ []
split_sep (c ∷ s) = let rest = split_sep s in if c == sep then [] ∷ rest else extend c rest

-- strings.Join(words, "/")
unfoldable pub join_sep : List Text → Text
join_sep [] = []
join_sep (w ∷ []) = w
join_sep (w ∷ v ∷ ws) = w ++ sep ∷ join_sep (v ∷ ws)

-- filepath.IsAbs
unfoldable pub is_abs : Text → Bool
is_abs [] = false
is_abs (c ∷ s) = c == sep

-- A ".." goes back over one name; at the root it is dropped, before a relative path it is kept.
unfoldable pub back : Bool → List Text → List Text
back rooted [] = if rooted then [] else dot_dot ∷ []
back rooted (w ∷ out) = if text_eq w dot_dot then dot_dot ∷ w ∷ out else out

unfoldable pub clean_step : Bool → List Text → Text → List Text
unfolding back
clean_step rooted out w =
    if is_empty w || text_eq w dot
    then out
    else if text_eq w dot_dot
    then back rooted out
    else w ∷ out

-- The names that are left, the last one first.
unfoldable pub resolve : Bool → List Text → List Text → List Text
unfolding clean_step
resolve rooted out [] = out
resolve rooted out (w ∷ ws) = resolve rooted (clean_step rooted out w) ws

unfoldable pub segments : Text → List Text
unfolding resolve split_sep is_abs
segments p = reverse (resolve (is_abs p) [] (split_sep p))

unfoldable pub abs_path : List Text → Text
unfolding join_sep
abs_path segs = sep ∷ join_sep segs

-- filepath.Clean
unfoldable pub clean : Text → Text
unfolding segments abs_path
clean p =
    if is_empty p
    then dot
    else if is_abs p
    then abs_path (segments p)
    else if is_empty (segments p)
    then dot
    else join_sep (segments p)

-- The elements of a cleaned path.
unfoldable pub elements : Text → List Text
unfolding split_sep
elements [] = []
elements (c ∷ s) = if c == sep then (if is_empty s then [] else split_sep s) else split_sep (c ∷ s)

-- The relative path from one list of elements to another, as the second half of filepath.Rel.
unfoldable pub rel_elements : List Text → List Text → Option Text
unfolding join_sep
rel_elements [] targ = some (join_sep targ)
rel_elements (x ∷ base) [] = some (join_sep (map (λ _. dot_dot) (x ∷ base)))
rel_elements (x ∷ base) (y ∷ targ) =
    let rest = rel_elements base targ in
    if text_eq y x
    then rest
    else if text_eq x dot_dot
    then none
    else some (join_sep (map (λ _. dot_dot) (x ∷ base) ++ y ∷ targ))

abbrev same : Bool → Bool → Bool
same true b = b
same false b = not b

-- filepath.Rel; `none` is its error.
unfoldable pub rel : Text → Text → Option Text
rel base_path targ_path =
    let base = clean base_path in
    let targ = clean targ_path in
    if text_eq targ base
    then some dot
    else if same (is_abs base) (is_abs targ)
    then rel_elements (if text_eq base dot then [] else elements base) (elements targ)
    else none

abbrev pub up_prefix : Text
up_prefix = codes "../"

-- TargetPathDepth: the number of names, counted by the separators between them.
unfoldable pub trim_left_sep : Text → Text
trim_left_sep [] = []
trim_left_sep (c ∷ s) = let rest = trim_left_sep s in if c == sep then rest else c ∷ s

unfoldable pub trim_right_sep : Text → Text
trim_right_sep [] = []
trim_right_sep (c ∷ s) =
    let rest = trim_right_sep s in if is_empty rest && c == sep then [] else c ∷ rest

unfoldable pub count_sep : Text → ℕ
count_sep [] = 0
count_sep (c ∷ s) = (if c == sep then 1 else 0) + count_sep s

unfoldable pub target_path_depth : Text → ℕ
target_path_depth path =
    let trimmed = trim_right_sep (trim_left_sep path) in
    if is_empty trimmed then 0 else count_sep trimmed + 1

-- The text up to the last separator, with it.
unfoldable pub up_to_last_sep : Text → Text
up_to_last_sep [] = []
up_to_last_sep (c ∷ s) =
    let rest = up_to_last_sep s in
    if is_empty rest then (if c == sep then c ∷ [] else []) else c ∷ rest

unfoldable pub last_word : List Text → Text
last_word [] = []
last_word (w ∷ []) = w
last_word (w ∷ v ∷ ws) = last_word (v ∷ ws)

-- filepath.Dir
unfoldable pub dir : Text → Text
dir p = clean (up_to_last_sep p)

-- filepath.Base
unfoldable pub base : Text → Text
base p =
    let trimmed = trim_right_sep p in
    if is_empty p then dot else if is_empty trimmed then sep ∷ [] else last_word (split_sep trimmed)

-- filepath.Join of two elements.
unfoldable pub join : Text → Text → Text
join a b =
    if is_empty a
    then (if is_empty b then [] else clean b)
    else if is_empty b
    then clean a
    else clean (a ++ sep ∷ b)

-- The result of Rel does not leave the base.
unfoldable pub stays_below : Text → Bool
stays_below r = not (text_eq r dot_dot || (is_abs r || has_prefix r up_prefix))

-- PathContains
unfoldable pub path_contains : Text → Text → Bool
path_contains parent child = elim (rel parent child) [
  | none ↦ false
  | some r ↦ if text_eq r dot then false else stays_below r
]

-- adapter.IsWithin
unfoldable pub is_within : Text → Text → Bool
is_within parent child = elim (rel parent child) [ none ↦ false | some r ↦ stays_below r ]
