-- ===== src/Cleaner/Targets/Outer.antt =====
-- NormalizeTargets keeps the outermost paths: no result lies at or below another, and each target
-- lies at or below a result.
use aibris.Prelude.{
  ◌≤◌, ◌<◌, ◌≡◌, refl, sym, ap, ◌∙◌, Text, List, [], ◌∷◌, ◌++◌, true, false, ◌⊎◌, inl, inr, text_eq,
  text_eq_iff, false≢true, In, All, Pairwise, any_of, any_of-In, any_of-false, All-mono, All-snoc,
  Pairwise-snoc, In-append_left, In-append_right, arith, Bool-cases,
}
use aibris.FilePath.{path_contains, target_path_depth}
use aibris.FilePath.Depth.{path_contains-depth}
use aibris.Cleaner.Items.{FileSystem}
use aibris.Cleaner.Targets.{NormalizedTarget, keep_outer}
use aibris.Cleaner.Targets.Merge.{Keyed}

-- Neither path is the other or lies below it.
pub record Apart (a b : Text) : Type 0 where
  pub differ : text_eq a b ≡ false
  pub not_above : path_contains a b ≡ false
  pub not_below : path_contains b a ≡ false

pub text_eq_symm : (a b : Text) → text_eq a b ≡ false → text_eq b a ≡ false
text_eq_symm a b h = elim (Bool-cases (text_eq b a)) [
  | inl e ↦ absurd (false≢true (sym h ∙ (text_eq_iff a b).1 (sym ((text_eq_iff b a).0 e))))
  | inr e ↦ e
]

pub Apart-symm : (a b : Text) → Apart a b → Apart b a
Apart-symm a b h = record {
  differ = text_eq_symm a b h.differ;
  not_above = h.not_below;
  not_below = h.not_above;
}

abbrev pub ApartTargets : NormalizedTarget → NormalizedTarget → Type 0
ApartTargets a b = Apart a.path b.path

-- What the sorting by depth leaves to know of an earlier and a later candidate.
pub record Before (a b : NormalizedTarget) : Type 0 where
  pub apart : text_eq a.path b.path ≡ false
  pub shallow : a.depth ≤ b.depth

-- The first path is the second, or lies above it.
abbrev pub Covers : Text → Text → Type 0
Covers a k = (a ≡ k) ⊎ (path_contains a k ≡ true)

module _ (fs : FileSystem) where
  -- A candidate that no kept path contains is apart from all of them, for it is not shallower.
  apart_from_kept :
      (kept : List NormalizedTarget) (c : NormalizedTarget)
      → All (Keyed fs) kept
      → Keyed fs c
      → All (λ a. Before a c) kept
      → All (λ a. path_contains a.path c.path ≡ false) kept
      → All (λ a. ApartTargets a c) kept
  apart_from_kept [] c hk hc hb hn = tt
  apart_from_kept (a ∷ kept) c hk hc hb hn = (
    record { differ = hb.0.apart; not_above = hn.0; not_below = not_deeper },
    apart_from_kept kept c hk.1 hc hb.1 hn.1,
  )
    where
      not_deeper : path_contains c.path a.path ≡ false
      not_deeper = elim (Bool-cases (path_contains c.path a.path)) [
        | inl e ↦
            let deeper : target_path_depth c.path < target_path_depth a.path =
              path_contains-depth c.path a.path hc.canonical hk.0.canonical e in
            absurd (omega (arith, hb.0.shallow, hc.depth_eq, hk.0.depth_eq))
        | inr e ↦ e
      ]

  pub keep_outer-Apart :
      (kept cs : List NormalizedTarget)
      → All (Keyed fs) kept
      → All (Keyed fs) cs
      → Pairwise ApartTargets kept
      → All (λ a. All (Before a) cs) kept
      → Pairwise Before cs
      → Pairwise ApartTargets (keep_outer kept cs)
  unfolding keep_outer
  keep_outer-Apart kept [] hk hc ha hb ho = ha
  keep_outer-Apart kept (c ∷ cs) hk hc ha hb ho =
      elim (Bool-cases (any_of (λ a. path_contains a.path c.path) kept)) [
        | inl e ↦ rw e (keep_outer-Apart kept cs hk hc.1 ha (later kept hb) ho.1)
        | inr e ↦ rw e (
            keep_outer-Apart (kept ++ c ∷ []) cs (All-snoc (Keyed fs) kept c hk hc.0) hc.1
              (Pairwise-snoc ApartTargets kept c ha (
                apart_from_kept kept c hk hc.0 (first kept hb)
                  (any_of-false (λ a. path_contains a.path c.path) kept e)))
              (All-snoc (λ a. All (Before a) cs) kept c (later kept hb) ho.0) ho.1)
      ]
    where
      later :
          (ks : List NormalizedTarget)
          → All (λ a. All (Before a) (c ∷ cs)) ks
          → All (λ a. All (Before a) cs) ks
      later ks = All-mono (λ a. All (Before a) (c ∷ cs)) (λ a. All (Before a) cs) ks (λ a h. h.1)

      first :
          (ks : List NormalizedTarget)
          → All (λ a. All (Before a) (c ∷ cs)) ks
          → All (λ a. Before a c) ks
      first ks = All-mono (λ a. All (Before a) (c ∷ cs)) (λ a. Before a c) ks (λ a h. h.0)

  pub keep_outer-All {κ} :
      (P : NormalizedTarget → Type κ) (kept cs : List NormalizedTarget)
      → All P kept
      → All P cs
      → All P (keep_outer kept cs)
  unfolding keep_outer
  keep_outer-All P kept [] h hc = h
  keep_outer-All P kept (c ∷ cs) h hc =
      elim (Bool-cases (any_of (λ a. path_contains a.path c.path) kept)) [
        | inl e ↦ rw e (keep_outer-All P kept cs h hc.1)
        | inr e ↦ rw e (keep_outer-All P (kept ++ c ∷ []) cs (All-snoc P kept c h hc.0) hc.1)
      ]

  keep_outer-kept :
      (kept cs : List NormalizedTarget) (a : NormalizedTarget)
      → In a kept
      → In a (keep_outer kept cs)
  unfolding keep_outer
  keep_outer-kept kept [] a i = i
  keep_outer-kept kept (c ∷ cs) a i =
      elim (Bool-cases (any_of (λ p. path_contains p.path c.path) kept)) [
        | inl e ↦ rw e (keep_outer-kept kept cs a i)
        | inr e ↦ rw e (keep_outer-kept (kept ++ c ∷ []) cs a (In-append_left kept (c ∷ []) a i))
      ]

  pub keep_outer-Covers :
      (kept cs : List NormalizedTarget) (c : NormalizedTarget)
      → In c cs
      → (a : NormalizedTarget) × In a (keep_outer kept cs) × Covers a.path c.path
  unfolding keep_outer
  keep_outer-Covers kept [] c i = absurd i
  keep_outer-Covers kept (d ∷ cs) c (inr i) =
      elim (Bool-cases (any_of (λ p. path_contains p.path d.path) kept)) [
        | inl e ↦ rw e (keep_outer-Covers kept cs c i)
        | inr e ↦ rw e (keep_outer-Covers (kept ++ d ∷ []) cs c i)
      ]
  keep_outer-Covers kept (d ∷ cs) c (inl q) =
      elim (Bool-cases (any_of (λ p. path_contains p.path d.path) kept)) [
        | inl e ↦
            let (a, i, h) = any_of-In (λ p. path_contains p.path d.path) kept e in
            rw e (
              a,
              keep_outer-kept kept cs a i,
              inr (ap (λ (t : NormalizedTarget). path_contains a.path t.path) q ∙ h),
            )
        | inr e ↦ rw e (
          d,
          keep_outer-kept (kept ++ d ∷ []) cs d (In-append_right kept (d ∷ []) d (inl refl)),
          inl (ap (λ (t : NormalizedTarget). t.path) (sym q)),
        )
      ]
