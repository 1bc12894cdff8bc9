-- ===== src/Prelude/Lists.antt =====
-- Lists: length over the native numbers, predicates by recursion, and insertion sort.
use Prim.Native.Nat.{ℕ, suc}
use mathlib.Core.Path.{◌≡◌, refl, sym, ap, subst}
use mathlib.Core.Logic.{◌⊎◌, inl, inr}
use mathlib.Core.Bool.{Bool, true, false, ◌||◌}
use mathlib.Core.List.{List, [], ◌∷◌, ◌++◌, map}
use native.Mathlib.Omega.{arith}
use aibris.Prelude.Tests.{if◌then◌else◌, Bool-cases}

module _ {ℓ} {A : Type ℓ} where
  abbrev pub length : List A → ℕ
  length [] = 0
  length (x ∷ xs) = suc (length xs)

  abbrev pub is_empty : List A → Bool
  is_empty [] = true
  is_empty (x ∷ xs) = false

  -- Some element passes the test (a loop that returns at the first hit).
  unfoldable pub any_of : (A → Bool) → List A → Bool
  any_of p [] = false
  any_of p (x ∷ xs) = p x || any_of p xs

  unfoldable pub keep_if : (A → Bool) → List A → List A
  keep_if p [] = []
  keep_if p (x ∷ xs) = let rest = keep_if p xs in if p x then x ∷ rest else rest

module _ {A : Type 0} where
  -- Membership, with the place of the element kept.
  abbrev pub In : A → List A → Type 0
  In a [] = ⊥
  In a (x ∷ xs) = (a ≡ x) ⊎ In a xs

  abbrev pub All {κ} : (A → Type κ) → List A → Type κ
  All P [] = Unit
  All P (x ∷ xs) = P x × All P xs

  -- Each element stands in the relation to every later one.
  abbrev pub Pairwise {κ} : (A → A → Type κ) → List A → Type κ
  Pairwise R [] = Unit
  Pairwise R (x ∷ xs) = All (R x) xs × Pairwise R xs

module _ {A : Type 0} where
  pub All-In {κ} : (P : A → Type κ) (xs : List A) → All P xs → (a : A) → In a xs → P a
  All-In P [] h a i = absurd i
  All-In P (x ∷ xs) h a (inl e) = subst P (sym e) h.0
  All-In P (x ∷ xs) h a (inr i) = All-In P xs h.1 a i

  pub All-intro {κ} : (P : A → Type κ) (xs : List A) → ((a : A) → In a xs → P a) → All P xs
  All-intro P [] f = tt
  All-intro P (x ∷ xs) f = (f x (inl refl), All-intro P xs (λ a i. f a (inr i)))

  pub any_of-In :
      (p : A → Bool) (xs : List A) → any_of p xs ≡ true → (a : A) × In a xs × (p a ≡ true)
  unfolding any_of
  any_of-In p [] h = cc
  any_of-In p (x ∷ xs) h = elim (Bool-cases (p x)) [
    | inl e ↦ (x, inl refl, e)
    | inr e ↦ let (a, i, q) = any_of-In p xs (ground arith) in (a, inr i, q)
  ]

  pub any_of-false : (p : A → Bool) (xs : List A) → any_of p xs ≡ false → All (λ a. p a ≡ false) xs
  unfolding any_of
  any_of-false p [] h = tt
  any_of-false p (x ∷ xs) h = (ground arith, any_of-false p xs (ground arith))

  pub In-any_of : (p : A → Bool) (xs : List A) (a : A) → In a xs → p a ≡ true → any_of p xs ≡ true
  unfolding any_of
  In-any_of p [] a i h = absurd i
  In-any_of p (x ∷ xs) a (inl e) h = let e' : p x ≡ true = cc in rw e' refl
  In-any_of p (x ∷ xs) a (inr i) h = ground (arith, In-any_of p xs a i h)

  pub In-keep_if : (p : A → Bool) (xs : List A) (a : A) → In a xs → p a ≡ true → In a (keep_if p xs)
  unfolding keep_if
  In-keep_if p [] a i h = absurd i
  In-keep_if p (x ∷ xs) a (inl e) h = let e' : p x ≡ true = cc in rw e' (inl e)
  In-keep_if p (x ∷ xs) a (inr i) h = elim (Bool-cases (p x)) [
    | inl e ↦ rw e (inr (In-keep_if p xs a i h))
    | inr e ↦ rw e (In-keep_if p xs a i h)
  ]

  pub keep_if-In :
      (p : A → Bool) (xs : List A) (a : A) → In a (keep_if p xs) → In a xs × (p a ≡ true)
  unfolding keep_if
  keep_if-In p [] a i = absurd i
  keep_if-In p (x ∷ xs) a i = elim (Bool-cases (p x)) [
    | inl e ↦ elim (kept e i) [
      | inl q ↦ (inl q, cc)
      | inr j ↦ let (k, h) = keep_if-In p xs a j in (inr k, h)
    ]
    | inr e ↦ let (j, h) = keep_if-In p xs a (rw e at i) in (inr j, h)
  ]
    where
      kept :
          p x ≡ true
          → In a (if p x then x ∷ keep_if p xs else keep_if p xs)
          → (a ≡ x) ⊎ In a (keep_if p xs)
      kept e i = rw e at i

  pub In-append_left : (xs ys : List A) (a : A) → In a xs → In a (xs ++ ys)
  In-append_left [] ys a i = absurd i
  In-append_left (x ∷ xs) ys a (inl e) = inl e
  In-append_left (x ∷ xs) ys a (inr i) = inr (In-append_left xs ys a i)

  pub In-append_right : (xs ys : List A) (a : A) → In a ys → In a (xs ++ ys)
  In-append_right [] ys a i = i
  In-append_right (x ∷ xs) ys a i = inr (In-append_right xs ys a i)

  pub In-append : (xs ys : List A) (a : A) → In a (xs ++ ys) → In a xs ⊎ In a ys
  In-append [] ys a i = inr i
  In-append (x ∷ xs) ys a (inl e) = inl (inl e)
  In-append (x ∷ xs) ys a (inr i) = elim (In-append xs ys a i) [
    | inl j ↦ inl (inr j)
    | inr j ↦ inr j
  ]

module _ {A : Type 0} where
  pub All-mono {κ ι} :
      (P : A → Type κ) (Q : A → Type ι) (xs : List A) → ((a : A) → P a → Q a) → All P xs → All Q xs
  All-mono P Q [] f h = tt
  All-mono P Q (x ∷ xs) f h = (f x h.0, All-mono P Q xs f h.1)

  pub All-snoc {κ} : (P : A → Type κ) (xs : List A) (c : A) → All P xs → P c → All P (xs ++ c ∷ [])
  All-snoc P [] c h p = (p, tt)
  All-snoc P (x ∷ xs) c h p = (h.0, All-snoc P xs c h.1 p)

  pub Pairwise-snoc {κ} :
      (R : A → A → Type κ) (xs : List A) (c : A)
      → Pairwise R xs
      → All (λ a. R a c) xs
      → Pairwise R (xs ++ c ∷ [])
  Pairwise-snoc R [] c h k = (tt, tt)
  Pairwise-snoc R (x ∷ xs) c h k = (All-snoc (R x) xs c h.0 k.0, Pairwise-snoc R xs c h.1 k.1)

  pub Pairwise-mono {κ ι} :
      (R : A → A → Type κ) (S : A → A → Type ι) (xs : List A)
      → ((a b : A) → R a b → S a b)
      → Pairwise R xs
      → Pairwise S xs
  Pairwise-mono R S [] f h = tt
  Pairwise-mono R S (x ∷ xs) f h = (All-mono (R x) (S x) xs (f x) h.0, Pairwise-mono R S xs f h.1)

  -- Two relations at once.
  All-both {κ ι ο} :
      (P : A → Type κ) (Q : A → Type ι) (R : A → Type ο) (xs : List A)
      → ((a : A) → P a → Q a → R a)
      → All P xs
      → All Q xs
      → All R xs
  All-both P Q R [] f h k = tt
  All-both P Q R (x ∷ xs) f h k = (f x h.0 k.0, All-both P Q R xs f h.1 k.1)

  pub Pairwise-both {κ ι ο} :
      (R : A → A → Type κ) (S : A → A → Type ι) (T : A → A → Type ο) (xs : List A)
      → ((a b : A) → R a b → S a b → T a b)
      → Pairwise R xs
      → Pairwise S xs
      → Pairwise T xs
  Pairwise-both R S T [] f h k = tt
  Pairwise-both R S T (x ∷ xs) f h k =
      (All-both (R x) (S x) (T x) xs (f x) h.0 k.0, Pairwise-both R S T xs f h.1 k.1)

  pub All-map {κ} :
      {B : Type 0} (f : A → B) (P : B → Type κ) (xs : List A)
      → All (λ a. P (f a)) xs
      → All P (map f xs)
  All-map f P [] h = tt
  All-map f P (x ∷ xs) h = (h.0, All-map f P xs h.1)

  -- A relation that holds between the images of elements of which `P` is known.
  pub Pairwise-map {κ ι ο} :
      {B : Type 0} (f : A → B) (P : A → Type ο) (R : A → A → Type κ) (S : B → B → Type ι)
      (xs : List A)
      → ((a b : A) → P a → P b → R a b → S (f a) (f b))
      → All P xs
      → Pairwise R xs
      → Pairwise S (map f xs)
  Pairwise-map f P R S [] g p h = tt
  Pairwise-map f P R S (x ∷ xs) g p h = (
    All-map f (S (f x)) xs (All-both P (R x) (λ b. S (f x) (f b)) xs (λ b. g x b p.0) p.1 h.0),
    Pairwise-map f P R S xs g p.1 h.1,
  )

  pub In-map : {B : Type 0} (f : A → B) (xs : List A) (a : A) → In a xs → In (f a) (map f xs)
  In-map f [] a i = absurd i
  In-map f (x ∷ xs) a (inl e) = inl (ap f e)
  In-map f (x ∷ xs) a (inr i) = inr (In-map f xs a i)
