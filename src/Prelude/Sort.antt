-- ===== src/Prelude/Sort.antt =====
-- Stable insertion sort, the model of Go's sort.Slice and sort.SliceStable.
use mathlib.Core.Path.{◌≡◌}
use mathlib.Core.Logic.{inl, inr}
use mathlib.Core.Bool.{Bool, true, false}
use mathlib.Core.List.{List, [], ◌∷◌}
use aibris.Prelude.Tests.{if◌then◌else◌, Bool-cases}
use aibris.Prelude.Lists.{In, All, Pairwise}

module _ {A : Type 0} (less : A → A → Bool) where
  -- An element goes before those that are not less than it.
  unfoldable pub insert_sorted : A → List A → List A
  insert_sorted x [] = x ∷ []
  insert_sorted x (y ∷ ys) =
      let rest = insert_sorted x ys in if less y x then y ∷ rest else x ∷ y ∷ ys

  unfoldable pub sort : List A → List A
  unfolding insert_sorted
  sort [] = []
  sort (x ∷ xs) = insert_sorted x (sort xs)

  All-insert_sorted {κ} :
      (P : A → Type κ) (x : A) (ys : List A) → P x → All P ys → All P (insert_sorted x ys)
  unfolding insert_sorted
  All-insert_sorted P x [] p h = (p, tt)
  All-insert_sorted P x (y ∷ ys) p h = elim (Bool-cases (less y x)) [
    | inl e ↦ rw e (h.0, All-insert_sorted P x ys p h.1)
    | inr e ↦ rw e (p, h)
  ]

  pub All-sort {κ} : (P : A → Type κ) (xs : List A) → All P xs → All P (sort xs)
  unfolding sort
  All-sort P [] h = tt
  All-sort P (x ∷ xs) h = All-insert_sorted P x (sort xs) h.0 (All-sort P xs h.1)

  In-insert_self : (a x : A) (ys : List A) → a ≡ x → In a (insert_sorted x ys)
  unfolding insert_sorted
  In-insert_self a x [] e = inl e
  In-insert_self a x (y ∷ ys) e = elim (Bool-cases (less y x)) [
    | inl l ↦ rw l (inr (In-insert_self a x ys e))
    | inr l ↦ rw l (inl e)
  ]

  In-insert_other : (a x : A) (ys : List A) → In a ys → In a (insert_sorted x ys)
  unfolding insert_sorted
  In-insert_other a x [] i = absurd i
  In-insert_other a x (y ∷ ys) i = elim (Bool-cases (less y x)) [
    | inl l ↦ rw l (elim i [ inl e ↦ inl e | inr j ↦ inr (In-insert_other a x ys j) ])
    | inr l ↦ rw l (inr i)
  ]

  pub In-sort : (xs : List A) (a : A) → In a xs → In a (sort xs)
  unfolding sort
  In-sort [] a i = absurd i
  In-sort (x ∷ xs) a (inl e) = In-insert_self a x (sort xs) e
  In-sort (x ∷ xs) a (inr i) = In-insert_other a x (sort xs) (In-sort xs a i)

  -- The sorted list is ordered by any transitive relation that the test decides.
  module _ {κ} (R : A → A → Type κ) (R-trans : (a b c : A) → R a b → R b c → R a c)
      (less-R : (a b : A) → less a b ≡ true → R a b)
      (not_less-R : (a b : A) → less a b ≡ false → R b a) where
    All-trans : (x y : A) (ys : List A) → R x y → All (R y) ys → All (R x) ys
    All-trans x y [] r h = tt
    All-trans x y (z ∷ ys) r h = (R-trans x y z r h.0, All-trans x y ys r h.1)

    Pairwise-insert_sorted : (x : A) (ys : List A) → Pairwise R ys → Pairwise R (insert_sorted x ys)
    unfolding insert_sorted
    Pairwise-insert_sorted x [] h = (tt, tt)
    Pairwise-insert_sorted x (y ∷ ys) h = elim (Bool-cases (less y x)) [
      | inl e ↦
          rw e (All-insert_sorted (R y) x ys (less-R y x e) h.0, Pairwise-insert_sorted x ys h.1)
      | inr e ↦ let r : R x y = not_less-R y x e in rw e ((r, All-trans x y ys r h.0), h)
    ]

    pub Pairwise-sort : (xs : List A) → Pairwise R (sort xs)
    unfolding sort
    Pairwise-sort [] = tt
    Pairwise-sort (x ∷ xs) = Pairwise-insert_sorted x (sort xs) (Pairwise-sort xs)

  -- A symmetric relation between all elements survives any reordering.
  module _ {κ} (R : A → A → Type κ) (R-symm : (a b : A) → R a b → R b a) where
    Pairwise-insert_symm :
        (x : A) (ys : List A) → All (R x) ys → Pairwise R ys → Pairwise R (insert_sorted x ys)
    unfolding insert_sorted
    Pairwise-insert_symm x [] a h = (tt, tt)
    Pairwise-insert_symm x (y ∷ ys) a h = elim (Bool-cases (less y x)) [
      | inl e ↦
          rw e
            (All-insert_sorted (R y) x ys (R-symm x y a.0) h.0, Pairwise-insert_symm x ys a.1 h.1)
      | inr e ↦ rw e (a, h)
    ]

    pub Pairwise-sort_symm : (xs : List A) → Pairwise R xs → Pairwise R (sort xs)
    unfolding sort
    Pairwise-sort_symm [] h = tt
    Pairwise-sort_symm (x ∷ xs) h =
        Pairwise-insert_symm x (sort xs) (All-sort (R x) xs h.0) (Pairwise-sort_symm xs h.1)
