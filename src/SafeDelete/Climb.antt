-- ===== src/SafeDelete/Climb.antt =====
-- internal/safedelete/safedelete.go: the loops up through the ancestors of a path end.
use aibris.Prelude.{
  ℕ, zero, suc, ◌+◌, ◌≤◌, ◌≡◌, refl, sym, ap, ◌∙◌, subst, Text, List, [], ◌∷◌, ◌++◌, reverse, Bool,
  true, false, Option, none, some, if◌then◌else◌, text_eq, text_eq_iff, All, is_empty, length,
  arith,
}
use mathlib.Core.List.{reverse-reverse, reverse-cons}
use aibris.FilePath.{sep, join_sep, abs_path, dir, base, join}
use aibris.FilePath.Segments.{IsName}
use aibris.FilePath.Depth.{IsCanonical}
use aibris.FilePath.Parent.{dir-append, dir-root}
use aibris.SafeDelete.Identity.{climb, climb_from}

length-append {ℓ} : {A : Type ℓ} (xs ys : List A) → length (xs ++ ys) ≡ length xs + length ys
length-append [] ys = omega arith
length-append (x ∷ xs) ys = omega (arith, length-append xs ys)

length-reverse {ℓ} : {A : Type ℓ} (xs : List A) → length (reverse xs) ≡ length xs
length-reverse [] = refl
length-reverse (x ∷ xs) =
    ap length (reverse-cons x xs)
    ∙ length-append (reverse xs) (x ∷ [])
    ∙ (omega (arith, length-reverse xs))

word_length : (w : Text) → is_empty w ≡ false → 1 ≤ length w
word_length [] h = cc
word_length (c ∷ w) h = omega arith

-- A path has at least as many bytes as names.
length-abs_path : (ws : List Text) → All IsName ws → length ws ≤ length (abs_path ws)
unfolding abs_path
length-abs_path ws h = omega (arith, length-join_sep ws h)
  where
    length-join_sep : (ws : List Text) → All IsName ws → length ws ≤ length (join_sep ws)
    length-join_sep [] h = unfold join_sep in omega arith
    length-join_sep (w ∷ []) h = unfold join_sep in omega (arith, word_length w h.0.not_empty)
    length-join_sep (w ∷ v ∷ ws) h =
        unfold join_sep in
        omega (
          arith,
          word_length w h.0.not_empty,
          length-join_sep (v ∷ ws) h.1,
          length-append w (sep ∷ join_sep (v ∷ ws)),
        )

names_split : (ws : List Text) (w : Text) → All IsName (ws ++ w ∷ []) → All IsName ws × IsName w
names_split [] w h = (tt, h.0)
names_split (v ∷ ws) w h = let (names, name) = names_split ws w h.1 in ((h.0, names), name)

module _ {A : Type 0} (visit : Text → Text → Option A) where
  abbrev at_step : Text → Text → Bool → Option A → Option A
  at_step current tail at_root rest = elim (visit current tail) [
    | some a ↦ some a
    | none ↦ if at_root then none else rest
  ]

  climb-at_root :
      (fuel : ℕ) (current tail : Text)
      → text_eq (dir current) current ≡ true
      → climb (suc fuel) visit current tail ≡ at_step current tail true none
  unfolding climb
  climb-at_root fuel current tail h =
      ap
        (λ (b : Bool).
          at_step current tail b (climb fuel visit (dir current) (join (base current) tail)))
        h

  climb-more :
      (fuel enough : ℕ) (current tail : Text)
      → climb fuel visit (dir current) (join (base current) tail)
        ≡ climb enough visit (dir current) (join (base current) tail)
      → climb (suc fuel) visit current tail ≡ climb (suc enough) visit current tail
  unfolding climb
  climb-more fuel enough current tail h =
      ap (at_step current tail (text_eq (dir current) current)) h

  dir-at_root : text_eq (dir (abs_path [])) (abs_path []) ≡ true
  dir-at_root = (text_eq_iff (dir (abs_path [])) (abs_path [])).1 dir-root

  -- The names in reverse, so that the parent is the tail.
  climb-reverse :
      (rs : List Text)
      → All IsName (reverse rs)
      → (fuel : ℕ) (tail : Text) → length rs ≤ fuel
      → climb (suc fuel) visit (abs_path (reverse rs)) tail
        ≡ climb (suc (length rs)) visit (abs_path (reverse rs)) tail
  climb-reverse [] h fuel tail enough =
      climb-at_root fuel (abs_path []) tail dir-at_root
      ∙ sym (climb-at_root zero (abs_path []) tail dir-at_root)
  climb-reverse (r ∷ rs) h zero tail enough = absurd (omega arith)
  climb-reverse (r ∷ rs) h (suc fuel) tail enough =
      let (names, name) = names_split (reverse rs) r (subst (All IsName) (reverse-cons r rs) h) in
      let current = abs_path (reverse (r ∷ rs)) in
      climb-more (suc fuel) (suc (length rs)) current tail (
        subst
          (λ (p : Text).
            climb (suc fuel) visit p (join (base current) tail)
            ≡ climb (suc (length rs)) visit p (join (base current) tail))
          (sym (
            ap (λ (ws : List Text). dir (abs_path ws)) (reverse-cons r rs)
            ∙ dir-append (reverse rs) r names name))
          (climb-reverse rs names fuel (join (base current) tail) (omega arith)))

  -- The loop up through the ancestors of a canonical path ends: with the fuel of a path's length,
  -- and with any more, it gives the same answer.
  pub climb_from-enough :
      (path : Text)
      → IsCanonical path
      → (fuel : ℕ) → length path ≤ fuel
      → climb (suc fuel) visit path [] ≡ climb_from visit path
  climb_from-enough path c fuel enough =
      let rs = reverse c.names in
      let back : path ≡ abs_path (reverse rs) =
        c.path_eq ∙ sym (ap abs_path (reverse-reverse c.names)) in
      let names : All IsName (reverse rs) =
        subst (All IsName) (sym (reverse-reverse c.names)) c.are_names in
      let fits : length rs ≤ length path =
        subst (λ (p : Text). length rs ≤ length p) (sym c.path_eq)
          (subst (λ (n : ℕ). n ≤ length (abs_path c.names)) (sym (length-reverse c.names))
            (length-abs_path c.names c.are_names)) in
      subst (λ (p : Text). climb (suc fuel) visit p [] ≡ climb (suc (length path)) visit p [])
        (sym back)
        (climb-reverse rs names fuel [] (omega arith)
          ∙ sym (climb-reverse rs names (length path) [] fits))
