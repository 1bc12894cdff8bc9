-- ===== src/FilePath/Containment.antt =====
-- What the containment tests decide on canonical absolute paths: PathContains is "strictly below",
-- IsWithin is "below or equal".
use aibris.Prelude.{
  ◌≡◌, refl, sym, ap, ◌∙◌, ◌≢◌, Text, List, [], ◌∷◌, ◌++◌, map, Bool, true, false, ◌&&◌, Option,
  none, some, if◌then◌else◌, false≢true, text_eq, text_eq_iff, text_eq_refl, has_prefix, All, arith,
  Bool-cases, Option-cases, inl, inr,
}
use mathlib.Core.Path.{ap₂}
use aibris.FilePath.{
  dot, dot_dot, split_sep, join_sep, is_abs, abs_path, elements, rel_elements, rel, up_prefix,
  stays_below, path_contains,
}
use aibris.FilePath.Segments.{IsName, split_sep-join_sep, clean-abs_path, elements-abs_path}

-- The names of one path are a proper prefix of the other's.
unfoldable pub strict_prefix : List Text → List Text → Bool
strict_prefix [] [] = false
strict_prefix [] (y ∷ ys) = true
strict_prefix (x ∷ xs) [] = false
strict_prefix (x ∷ xs) (y ∷ ys) = text_eq y x && strict_prefix xs ys

-- A relative path of names stays below.
pub join_sep-relative : (w : Text) (ws : List Text) → IsName w → is_abs (join_sep (w ∷ ws)) ≡ false
unfolding join_sep is_abs
join_sep-relative [] ws h = absurd (false≢true (sym h.not_empty))
join_sep-relative (c ∷ w) [] h = ground (arith, h.no_sep)
join_sep-relative (c ∷ w) (v ∷ ws) h = ground (arith, h.no_sep)

-- The first word of a text.
abbrev first_word : List Text → Text
first_word [] = []
first_word (w ∷ ws) = w

up_prefix_word : (s : Text) → has_prefix s up_prefix ≡ true → first_word (split_sep s) ≡ dot_dot
unfolding has_prefix split_sep
up_prefix_word [] h = cc
up_prefix_word (a ∷ []) h = ground arith
up_prefix_word (a ∷ b ∷ []) h = ground arith
up_prefix_word (a ∷ b ∷ c ∷ s) h = ground arith

first_word-join_sep :
    (w : Text) (ws : List Text)
    → All IsName (w ∷ ws)
    → first_word (split_sep (join_sep (w ∷ ws))) ≡ w
first_word-join_sep w ws h = ap first_word (split_sep-join_sep w ws h)

-- A text whose first word is not `s` is not `s`, for a word `s`.
not_word :
    (w : Text) (ws : List Text) (s : Text)
    → All IsName (w ∷ ws)
    → first_word (split_sep s) ≡ s
    → text_eq w s ≡ false
    → text_eq (join_sep (w ∷ ws)) s ≡ false
not_word w ws s h one ne = elim (Bool-cases (text_eq (join_sep (w ∷ ws)) s)) [
  | inl e ↦
      let same : w ≡ s =
        sym (first_word-join_sep w ws h)
        ∙ ap (λ (t : Text). first_word (split_sep t)) ((text_eq_iff (join_sep (w ∷ ws)) s).0 e)
        ∙ one in
      absurd (false≢true (sym ne ∙ (text_eq_iff w s).1 same))
  | inr e ↦ e
]

not_up :
    (w : Text) (ws : List Text)
    → All IsName (w ∷ ws)
    → has_prefix (join_sep (w ∷ ws)) up_prefix ≡ false
not_up w ws h = elim (Bool-cases (has_prefix (join_sep (w ∷ ws)) up_prefix)) [
  | inl e ↦
      let same : w ≡ dot_dot =
        sym (first_word-join_sep w ws h) ∙ up_prefix_word (join_sep (w ∷ ws)) e in
      absurd (false≢true (sym h.0.not_dot_dot ∙ (text_eq_iff w dot_dot).1 same))
  | inr e ↦ e
]

names_below :
    (w : Text) (ws : List Text)
    → All IsName (w ∷ ws)
    → (text_eq (join_sep (w ∷ ws)) dot ≡ false) × (stays_below (join_sep (w ∷ ws)) ≡ true)
unfolding stays_below split_sep
names_below w ws h = (
  not_word w ws dot h refl h.0.not_dot,
  rw (not_word w ws dot_dot h refl h.0.not_dot_dot, join_sep-relative w ws h.0, not_up w ws h),
)

-- A path that climbs does not stay below.
ups_climb :
    (x : Text) (base rest : List Text)
    → stays_below (join_sep (map (λ _. dot_dot) (x ∷ base) ++ rest)) ≡ false
unfolding stays_below join_sep text_eq has_prefix is_abs
ups_climb x [] [] = refl
ups_climb x [] (r ∷ rest) = refl
ups_climb x (y ∷ base) rest = refl

ups_not_dot :
    (x : Text) (base rest : List Text)
    → text_eq (join_sep (map (λ _. dot_dot) (x ∷ base) ++ rest)) dot ≡ false
unfolding join_sep text_eq
ups_not_dot x [] [] = refl
ups_not_dot x [] (r ∷ rest) = refl
ups_not_dot x (y ∷ base) rest = refl

-- The test that PathContains makes on the result of Rel, in the case of unequal paths.
abbrev below : Option Text → Bool
below none = false
below (some r) = if text_eq r dot then false else stays_below r

ups_alone :
    (x : Text) (base : List Text) → below (some (join_sep (map (λ _. dot_dot) (x ∷ base)))) ≡ false
unfolding stays_below join_sep text_eq has_prefix is_abs
ups_alone x [] = refl
ups_alone x (y ∷ base) = refl

path_contains_lem : (p c : Text) → path_contains p c ≡ below (rel p c)
unfolding path_contains
path_contains_lem p c = elim (Option-cases (rel p c)) [
  | inl e ↦ rw (e, path_contains)
  | inr (r, e) ↦ rw (e, path_contains)
]

-- On lists of names, Rel goes down exactly from a prefix.
below-rel_elements :
    (base targ : List Text)
    → All IsName base
    → All IsName targ
    → base ≢ targ
    → below (rel_elements base targ) ≡ strict_prefix base targ
unfolding rel_elements strict_prefix
below-rel_elements [] [] hb ht ne = absurd (ne refl)
below-rel_elements [] (y ∷ targ) hb ht ne =
    rw ((names_below y targ ht).0) ((names_below y targ ht).1)
below-rel_elements (x ∷ base) [] hb ht ne = ups_alone x base
below-rel_elements (x ∷ base) (y ∷ targ) hb ht ne = elim (Bool-cases (text_eq y x)) [
  | inl e ↦
      rw e
        (below-rel_elements base targ hb.1 ht.1 λ q. ne (ap₂ ◌∷◌ (sym ((text_eq_iff y x).0 e)) q))
  | inr e ↦ rw (e, hb.0.not_dot_dot, ups_not_dot x base (y ∷ targ)) (ups_climb x base (y ∷ targ))
]

strict_prefix_self : (xs : List Text) → strict_prefix xs xs ≡ false
unfolding strict_prefix
strict_prefix_self [] = refl
strict_prefix_self (x ∷ xs) = rw (text_eq_refl x) (strict_prefix_self xs)

-- The result of Rel between two canonical paths: "." for a path and itself, otherwise what the
-- lists of names give.
module _ (base targ : List Text) (hb : All IsName base) (ht : All IsName targ) where
  abs_path-injective : abs_path targ ≡ abs_path base → targ ≡ base
  abs_path-injective e = sym (elements-abs_path targ ht) ∙ ap elements e ∙ elements-abs_path base hb

  rel_same :
      text_eq (abs_path targ) (abs_path base) ≡ true
      → rel (abs_path base) (abs_path targ) ≡ some dot
  unfolding rel
  rel_same e = rw (clean-abs_path base hb, clean-abs_path targ ht, e)

  rel_other :
      text_eq (abs_path targ) (abs_path base) ≡ false
      → rel (abs_path base) (abs_path targ) ≡ rel_elements base targ
  unfolding rel
  rel_other e =
      rw (clean-abs_path base hb, clean-abs_path targ ht, e, elements-abs_path base hb)
        (rw (elements-abs_path targ ht) (unfold is_abs abs_path text_eq in refl))

  -- PathContains holds of two canonical absolute paths exactly when the names of the first are a
  -- proper prefix of the names of the second.
  pub path_contains-abs_path :
      path_contains (abs_path base) (abs_path targ) ≡ strict_prefix base targ
  unfolding text_eq
  path_contains-abs_path =
      path_contains_lem (abs_path base) (abs_path targ)
      ∙ elim (Bool-cases (text_eq (abs_path targ) (abs_path base))) [
        | inl e ↦
            let q : targ ≡ base =
              abs_path-injective ((text_eq_iff (abs_path targ) (abs_path base)).0 e) in
            rw (rel_same e, q) (sym (strict_prefix_self base))
        | inr e ↦ rw (rel_other e) (
            below-rel_elements base targ hb ht λ q.
              false≢true
                (sym e ∙ (text_eq_iff (abs_path targ) (abs_path base)).1 (ap abs_path (sym q))))
      ]
