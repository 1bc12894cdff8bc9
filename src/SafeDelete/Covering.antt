-- ===== src/SafeDelete/Covering.antt =====
-- internal/safedelete/safedelete.go: coversProtected on canonical paths.
use aibris.Prelude.{
  ◌≡◌, ◌≢◌, refl, sym, ap, ◌∙◌, subst, Text, List, [], ◌∷◌, ◌++◌, true, false, ||-false, false≢true,
  text_eq, text_eq_iff, has_prefix, arith, is_empty, Bool-cases, inl, inr,
}
use mathlib.Core.List.{append_assoc}
use aibris.FilePath.{sep, join_sep, abs_path, path_contains}
use aibris.FilePath.Containment.{strict_prefix, path_contains-abs_path}
use aibris.FilePath.Depth.{IsCanonical}
use aibris.SafeDelete.Identity.{covers_protected}

pub has_prefix-append : (x s t : Text) → has_prefix (x ++ s) (x ++ t) ≡ has_prefix s t
unfolding has_prefix
has_prefix-append [] s t = refl
has_prefix-append (c ∷ x) s t = ground (arith, has_prefix-append x s t)

sep_prefix : (s t : Text) → has_prefix s t ≡ true → has_prefix (sep ∷ s) (sep ∷ t) ≡ true
unfolding has_prefix
sep_prefix s t h = h

-- The names of a path that lies below go on after a separator.
join_sep-has_prefix :
    (x : Text) (a b : List Text)
    → strict_prefix (x ∷ a) b ≡ true
    → has_prefix (join_sep b) (join_sep (x ∷ a) ++ sep ∷ []) ≡ true
unfolding strict_prefix join_sep has_prefix
join_sep-has_prefix x a [] h = cc
join_sep-has_prefix x [] (y ∷ []) h = ground arith
join_sep-has_prefix x [] (y ∷ z ∷ b) h =
    let e : y ≡ x = (text_eq_iff y x).0 (ground arith) in
    subst (λ w. has_prefix (w ++ sep ∷ join_sep (z ∷ b)) (x ++ sep ∷ []) ≡ true) (sym e)
      (has_prefix-append x (sep ∷ join_sep (z ∷ b)) (sep ∷ [])
        ∙ sep_prefix (join_sep (z ∷ b)) [] refl)
join_sep-has_prefix x (v ∷ a) (y ∷ []) h = ground arith
join_sep-has_prefix x (v ∷ a) (y ∷ z ∷ b) h =
    let e : y ≡ x = (text_eq_iff y x).0 (ground arith) in
    let ih = join_sep-has_prefix v a (z ∷ b) (ground arith) in
    subst
      (λ w.
        has_prefix (w ++ sep ∷ join_sep (z ∷ b)) ((x ++ sep ∷ join_sep (v ∷ a)) ++ sep ∷ []) ≡ true)
      (sym e)
      (ap (has_prefix (x ++ sep ∷ join_sep (z ∷ b)))
          (append_assoc x (sep ∷ join_sep (v ∷ a)) (sep ∷ []))
        ∙ has_prefix-append x (sep ∷ join_sep (z ∷ b)) (sep ∷ join_sep (v ∷ a) ++ sep ∷ [])
        ∙ sep_prefix (join_sep (z ∷ b)) (join_sep (v ∷ a) ++ sep ∷ []) ih)

-- A path below another starts with it and a separator.
below-has_prefix :
    (a b : List Text)
    → is_empty a ≡ false
    → strict_prefix a b ≡ true
    → has_prefix (abs_path b) (abs_path a ++ sep ∷ []) ≡ true
unfolding abs_path
below-has_prefix [] b e h = cc
below-has_prefix (x ∷ a) b e h =
    sep_prefix (join_sep b) (join_sep (x ∷ a) ++ sep ∷ []) (join_sep-has_prefix x a b h)

module _ (target location : Text) (ct : IsCanonical target) (cl : IsCanonical location) where
  contains-has_prefix :
      is_empty ct.names ≡ false
      → path_contains target location ≡ true
      → has_prefix location (target ++ sep ∷ []) ≡ true
  contains-has_prefix deep below =
      let names : strict_prefix ct.names cl.names ≡ true =
        sym (path_contains-abs_path ct.names cl.names ct.are_names cl.are_names)
        ∙ ap (λ (t : Text). path_contains t (abs_path cl.names)) (sym ct.path_eq)
        ∙ ap (path_contains target) (sym cl.path_eq)
        ∙ below in
      ap (λ (t : Text). has_prefix t (target ++ sep ∷ [])) cl.path_eq
      ∙ ap (λ (t : Text). has_prefix (abs_path cl.names) (t ++ sep ∷ [])) ct.path_eq
      ∙ below-has_prefix ct.names cl.names deep names

  -- On canonical paths coversProtected misses nothing: where it does not hold of a target below the
  -- root, the location is neither the target nor below it.
  pub covers_protected_complete :
      is_empty ct.names ≡ false
      → covers_protected target location ≡ false
      → (target ≢ location) × (path_contains target location ≡ false)
  unfolding covers_protected
  covers_protected_complete deep h =
      let (apart, outside) =
        ||-false (text_eq target location) (has_prefix location (target ++ sep ∷ [])) h in
      (
        λ same. false≢true (sym apart ∙ (text_eq_iff target location).1 same),
        elim (Bool-cases (path_contains target location)) [
          | inl below ↦ absurd (false≢true (sym outside ∙ contains-has_prefix deep below))
          | inr e ↦ e
        ],
      )
