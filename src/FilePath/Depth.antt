-- ===== src/FilePath/Depth.antt =====
-- Canonical keys: containment is transitive and goes strictly down in depth.
use aibris.Prelude.{
  ◌+◌, ◌<◌, ◌≡◌, refl, sym, ◌∙◌, Text, List, [], ◌∷◌, ◌++◌, true, false, text_eq_iff, length, All,
  is_empty, arith,
}
use mathlib.Core.Path.{ap₂}
use aibris.FilePath.{
  sep, join_sep, is_abs, segments, abs_path, clean, path_contains, trim_left_sep, trim_right_sep,
  count_sep, target_path_depth,
}
use aibris.FilePath.Segments.{IsName, has_sep, join_sep-not_empty, segments-IsName, clean-abs}
use aibris.FilePath.Containment.{strict_prefix, join_sep-relative, path_contains-abs_path}

strict_prefix_trans :
    (a b c : List Text)
    → strict_prefix a b ≡ true
    → strict_prefix b c ≡ true
    → strict_prefix a c ≡ true
unfolding strict_prefix
strict_prefix_trans [] [] c h k = cc
strict_prefix_trans [] (y ∷ b) [] h k = cc
strict_prefix_trans [] (y ∷ b) (z ∷ c) h k = refl
strict_prefix_trans (x ∷ a) [] c h k = cc
strict_prefix_trans (x ∷ a) (y ∷ b) [] h k = cc
strict_prefix_trans (x ∷ a) (y ∷ b) (z ∷ c) h k =
    ground (arith, text_eq_iff y x, text_eq_iff z y, text_eq_iff z x, strict_prefix_trans a b c)

strict_prefix-length : (a b : List Text) → strict_prefix a b ≡ true → length a < length b
unfolding strict_prefix
strict_prefix-length [] [] h = cc
strict_prefix-length [] (y ∷ b) h = omega arith
strict_prefix-length (x ∷ a) [] h = cc
strict_prefix-length (x ∷ a) (y ∷ b) h = ground (arith, strict_prefix-length a b)

-- A canonical absolute path: the separator, then names.
pub record IsCanonical (key : Text) : Type 0 where
  pub names : List Text
  pub are_names : All IsName names
  pub path_eq : key ≡ abs_path names

pub clean-IsCanonical : (p : Text) → is_abs p ≡ true → IsCanonical (clean p)
clean-IsCanonical p h = record {
  names = segments p;
  are_names = segments-IsName p h;
  path_eq = clean-abs p h;
}

contains→prefix :
    (a b : Text) (ca : IsCanonical a) (cb : IsCanonical b)
    → path_contains a b ≡ true
    → strict_prefix ca.names cb.names ≡ true
contains→prefix a b ca cb h =
    sym (path_contains-abs_path ca.names cb.names ca.are_names cb.are_names)
    ∙ ap₂ path_contains (sym ca.path_eq) (sym cb.path_eq)
    ∙ h

prefix→contains :
    (a b : Text) (ca : IsCanonical a) (cb : IsCanonical b)
    → strict_prefix ca.names cb.names ≡ true
    → path_contains a b ≡ true
prefix→contains a b ca cb h =
    ap₂ path_contains ca.path_eq cb.path_eq
    ∙ path_contains-abs_path ca.names cb.names ca.are_names cb.are_names
    ∙ h

-- Containment of canonical absolute paths is transitive.
pub path_contains_trans :
    (a b c : Text)
    → IsCanonical a
    → IsCanonical b
    → IsCanonical c
    → path_contains a b ≡ true
    → path_contains b c ≡ true
    → path_contains a c ≡ true
path_contains_trans a b c ca cb cc' h k = prefix→contains a c ca cc' (
    strict_prefix_trans ca.names cb.names cc'.names (contains→prefix a b ca cb h)
      (contains→prefix b c cb cc' k))

count_sep-append : (w s : Text) → count_sep (w ++ s) ≡ count_sep w + count_sep s
unfolding count_sep
count_sep-append [] s = omega arith
count_sep-append (c ∷ w) s = omega (arith, count_sep-append w s)

count_sep-word : (w : Text) → has_sep w ≡ false → count_sep w ≡ 0
unfolding count_sep
count_sep-word [] h = refl
count_sep-word (c ∷ w) h = ground (arith, count_sep-word w)

count_sep-join_sep :
    (w : Text) (ws : List Text)
    → All IsName (w ∷ ws)
    → count_sep (join_sep (w ∷ ws)) + 1 ≡ length (w ∷ ws)
unfolding join_sep count_sep
count_sep-join_sep w [] h = omega (arith, count_sep-word w h.0.no_sep)
count_sep-join_sep w (v ∷ ws) h = omega (
  arith,
  count_sep-append w (sep ∷ join_sep (v ∷ ws)),
  count_sep-word w h.0.no_sep,
  count_sep-join_sep v ws h.1,
)

is_empty-append : (w s : Text) → is_empty s ≡ false → is_empty (w ++ s) ≡ false
is_empty-append [] s n = n
is_empty-append (c ∷ w) s n = refl

trim_right_sep-append :
    (w s : Text) → trim_right_sep s ≡ s → is_empty s ≡ false → trim_right_sep (w ++ s) ≡ w ++ s
unfolding trim_right_sep
trim_right_sep-append [] s h n = h
trim_right_sep-append (c ∷ w) s h n = rw (trim_right_sep-append w s h n, is_empty-append w s n)

trim_right_sep-word : (w : Text) → has_sep w ≡ false → trim_right_sep w ≡ w
unfolding trim_right_sep
trim_right_sep-word [] h = refl
trim_right_sep-word (c ∷ w) h = ground (arith, trim_right_sep-word w)

trim_right_sep-join_sep :
    (w : Text) (ws : List Text)
    → All IsName (w ∷ ws)
    → trim_right_sep (join_sep (w ∷ ws)) ≡ join_sep (w ∷ ws)
unfolding join_sep trim_right_sep
trim_right_sep-join_sep w [] h = trim_right_sep-word w h.0.no_sep
trim_right_sep-join_sep w (v ∷ ws) h =
    trim_right_sep-append w (sep ∷ join_sep (v ∷ ws))
      (rw (trim_right_sep-join_sep v ws h.1, join_sep-not_empty v ws h.1.0)) refl

trim_left_sep-relative : (s : Text) → is_abs s ≡ false → trim_left_sep s ≡ s
unfolding trim_left_sep is_abs
trim_left_sep-relative [] h = refl
trim_left_sep-relative (c ∷ s) h = rw h

target_path_depth-abs_path :
    (ws : List Text) → All IsName ws → target_path_depth (abs_path ws) ≡ length ws
unfolding target_path_depth abs_path trim_left_sep trim_right_sep join_sep
target_path_depth-abs_path [] h = refl
target_path_depth-abs_path (w ∷ ws) h =
    rw (trim_left_sep-relative (join_sep (w ∷ ws)) (join_sep-relative w ws h.0))
      (rw (trim_right_sep-join_sep w ws h, join_sep-not_empty w ws h.0) (count_sep-join_sep w ws h))

-- A canonical absolute path that another contains has the greater depth of the two.
pub path_contains-depth :
    (a b : Text)
    → IsCanonical a
    → IsCanonical b
    → path_contains a b ≡ true
    → target_path_depth a < target_path_depth b
path_contains-depth a b ca cb h =
    rw (ca.path_eq, cb.path_eq)
      (rw (target_path_depth-abs_path ca.names ca.are_names) (
        rw (target_path_depth-abs_path cb.names cb.are_names)
          (strict_prefix-length ca.names cb.names (contains→prefix a b ca cb h))))
