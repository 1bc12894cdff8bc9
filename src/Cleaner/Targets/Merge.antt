-- ===== src/Cleaner/Targets/Merge.antt =====
-- The entries that NormalizeTargets collects: one for each canonical path, holding one of the rows
-- that were discovered at that path.
use aibris.Prelude.{
  ℕ, ◌+◌, ◌≡◌, refl, sym, ap, ◌∙◌, subst, Text, List, [], ◌∷◌, Bool, true, false, Option, some, inl,
  inr, text_eq, text_eq_iff, In, All, Pairwise, arith, Bool-cases, Option-cases, is_empty,
}
use aibris.FilePath.{is_abs, clean, abs_path, target_path_depth}
use aibris.FilePath.Segments.{clean-abs}
use aibris.FilePath.Depth.{IsCanonical, clean-IsCanonical}
use aibris.Types.{DebrisInfo}
use aibris.Cleaner.Items.{
  FileSystem, ResolvesAbsolute, trim_space, resolve_links, target_path_key,
  prefer_target_for_canonical,
}
use aibris.Cleaner.Targets.{
  NormalizedTarget, chosen_item, with_active_status, merge_target, add_candidate, new_candidate,
  add_target, collect,
}

-- The path of an item is absolute once white space round it is dropped.
abbrev pub IsAbsolute : DebrisInfo → Type 0
IsAbsolute t = is_abs (trim_space t.path) ≡ true

is_abs-not_empty : (p : Text) → is_abs p ≡ true → is_empty p ≡ false
unfolding is_abs
is_abs-not_empty [] h = cc
is_abs-not_empty (c ∷ p) h = refl

is_abs-clean : (p : Text) → is_abs p ≡ true → is_abs (clean p) ≡ true
is_abs-clean p h = rw (clean-abs p h) (unfold is_abs abs_path in refl)

module _ (fs : FileSystem) (resolves : ResolvesAbsolute fs) where
  resolve_links-IsCanonical :
      (p : Text) → is_abs p ≡ true → IsCanonical (resolve_links fs (clean p))
  unfolding resolve_links
  resolve_links-IsCanonical p h = elim (Option-cases (fs.eval_symlinks (clean p))) [
    | inl e ↦ rw (e, resolve_links) (clean-IsCanonical p h)
    | inr (r, e) ↦
        rw (e, resolve_links) (clean-IsCanonical r (resolves (clean p) r (is_abs-clean p h) e))
  ]

  -- The key of an absolute path is canonical.
  pub target_path_key-IsCanonical :
      (path key : Text)
      → is_abs (trim_space path) ≡ true
      → target_path_key fs path ≡ some key
      → IsCanonical key
  unfolding target_path_key
  target_path_key-IsCanonical path key h e =
      subst IsCanonical (found (rw (is_abs-not_empty (trim_space path) h) at e))
        (resolve_links-IsCanonical (trim_space path) h)
    where
      found :
          some (resolve_links fs (clean (trim_space path))) ≡ some key
          → resolve_links fs (clean (trim_space path)) ≡ key
      found q = cc

-- An absolute path has a key.
pub target_path_key-some :
    (fs : FileSystem) (path : Text)
    → is_abs (trim_space path) ≡ true
    → (key : Text) × (target_path_key fs path ≡ some key)
unfolding target_path_key
target_path_key-some fs path h =
    (resolve_links fs (clean (trim_space path)), rw (is_abs-not_empty (trim_space path) h))

module _ (fs : FileSystem) where
  -- An entry belongs to the path under which it is kept.
  pub record Keyed (e : NormalizedTarget) : Type 0 where
    pub key_eq : target_path_key fs e.item.path ≡ some e.path
    pub depth_eq : e.depth ≡ target_path_depth e.path
    pub canonical : IsCanonical e.path

  with_active_status-path :
      (b : Bool) (item : DebrisInfo) → (with_active_status b item).path ≡ item.path
  unfolding with_active_status
  with_active_status-path b item = ground arith

  chosen_item-path :
      (e c : NormalizedTarget) (k : Option Text)
      → target_path_key fs e.item.path ≡ k
      → target_path_key fs c.item.path ≡ k
      → target_path_key fs (chosen_item fs e c).path ≡ k
  unfolding chosen_item
  chosen_item-path e c k h h' =
      elim (Bool-cases (prefer_target_for_canonical fs c.item e.item c.path)) [
        | inl p ↦ rw p h'
        | inr p ↦ rw p h
      ]

  merge_target-Keyed :
      (e c : NormalizedTarget) → e.path ≡ c.path → Keyed e → Keyed c → Keyed (merge_target fs e c)
  unfolding merge_target
  merge_target-Keyed e c p h h' = record {
    key_eq =
        ap (target_path_key fs) (with_active_status-path _ (chosen_item fs e c))
        ∙ chosen_item-path e c (some e.path) h.key_eq (h'.key_eq ∙ ap some (sym p));
    depth_eq = h.depth_eq;
    canonical = h.canonical;
  }

  add_candidate-Keyed :
      (c : NormalizedTarget) (es : List NormalizedTarget)
      → Keyed c
      → All Keyed es
      → All Keyed (add_candidate fs c es)
  unfolding add_candidate
  add_candidate-Keyed c [] h hs = (h, tt)
  add_candidate-Keyed c (e ∷ es) h hs = elim (Bool-cases (text_eq e.path c.path)) [
    | inl p ↦ rw p (merge_target-Keyed e c ((text_eq_iff e.path c.path).0 p) hs.0 h, hs.1)
    | inr p ↦ rw p (hs.0, add_candidate-Keyed c es h hs.1)
  ]

  -- Two entries never share a path.
  abbrev pub Distinct : NormalizedTarget → NormalizedTarget → Type 0
  Distinct a b = text_eq a.path b.path ≡ false

  add_candidate-All-Distinct :
      (a c : NormalizedTarget) (es : List NormalizedTarget)
      → Distinct a c
      → All (Distinct a) es
      → All (Distinct a) (add_candidate fs c es)
  unfolding add_candidate merge_target
  add_candidate-All-Distinct a c [] h hs = (h, tt)
  add_candidate-All-Distinct a c (e ∷ es) h hs = elim (Bool-cases (text_eq e.path c.path)) [
    | inl p ↦ rw p hs
    | inr p ↦ rw p (hs.0, add_candidate-All-Distinct a c es h hs.1)
  ]

  add_candidate-Distinct :
      (c : NormalizedTarget) (es : List NormalizedTarget)
      → Pairwise Distinct es
      → Pairwise Distinct (add_candidate fs c es)
  unfolding add_candidate merge_target
  add_candidate-Distinct c [] hs = (tt, tt)
  add_candidate-Distinct c (e ∷ es) hs = elim (Bool-cases (text_eq e.path c.path)) [
    | inl p ↦ rw p hs
    | inr p ↦ rw p (add_candidate-All-Distinct e c es p hs.0, add_candidate-Distinct c es hs.1)
  ]

  -- A path that has an entry keeps one, and the candidate's path gets one.
  abbrev pub HasEntry : Text → List NormalizedTarget → Type 0
  HasEntry k es = (e : NormalizedTarget) × In e es × (e.path ≡ k)

  later :
      (k : Text) (a : NormalizedTarget) (es : List NormalizedTarget)
      → HasEntry k es
      → HasEntry k (a ∷ es)
  later k a es (e, i, p) = (e, inr i, p)

  add_candidate-new :
      (c : NormalizedTarget) (es : List NormalizedTarget) → HasEntry c.path (add_candidate fs c es)
  unfolding add_candidate merge_target
  add_candidate-new c [] = (c, inl refl, refl)
  add_candidate-new c (e ∷ es) = elim (Bool-cases (text_eq e.path c.path)) [
    | inl p ↦ rw p (merge_target fs e c, inl refl, (text_eq_iff e.path c.path).0 p)
    | inr p ↦ rw p (later c.path e _ (add_candidate-new c es))
  ]

  add_candidate-old :
      (k : Text) (c : NormalizedTarget) (es : List NormalizedTarget)
      → HasEntry k es
      → HasEntry k (add_candidate fs c es)
  unfolding add_candidate merge_target
  add_candidate-old k c [] (e, i, p) = absurd i
  add_candidate-old k c (e ∷ es) (a, inl q, p) = elim (Bool-cases (text_eq e.path c.path)) [
    | inl m ↦
        rw m (merge_target fs e c, inl refl, ap (λ (t : NormalizedTarget). t.path) (sym q) ∙ p)
    | inr m ↦ rw m (e, inl refl, ap (λ (t : NormalizedTarget). t.path) (sym q) ∙ p)
  ]
  add_candidate-old k c (e ∷ es) (a, inr i, p) = elim (Bool-cases (text_eq e.path c.path)) [
    | inl m ↦ rw m (a, inr i, p)
    | inr m ↦ rw m (later k e _ (add_candidate-old k c es (a, i, p)))
  ]

  -- The same through the loop over the targets.
  module _ (resolves : ResolvesAbsolute fs) where
    new_candidate-Keyed :
        (i : ℕ) (key : Text) (t : DebrisInfo)
        → IsAbsolute t
        → target_path_key fs t.path ≡ some key
        → Keyed (new_candidate i key t)
    new_candidate-Keyed i key t h e = record {
      key_eq = e;
      depth_eq = refl;
      canonical = target_path_key-IsCanonical fs resolves t.path key h e;
    }

    pub collect-Keyed :
        (i : ℕ) (es : List NormalizedTarget) (ts : List DebrisInfo)
        → All IsAbsolute ts
        → All Keyed es
        → All Keyed (collect fs i es ts)
    unfolding collect add_target
    collect-Keyed i es [] h hs = hs
    collect-Keyed i es (t ∷ ts) h hs =
        collect-Keyed (i + 1) (add_target fs i t es) ts h.1
          (elim (Option-cases (target_path_key fs t.path)) [
            | inl e ↦ rw (e, add_target) hs
            | inr (key, e) ↦
                rw (e, add_target)
                  (add_candidate-Keyed (new_candidate i key t) es
                    (new_candidate-Keyed i key t h.0 e) hs)
          ])

  pub collect-Distinct :
      (i : ℕ) (es : List NormalizedTarget) (ts : List DebrisInfo)
      → Pairwise Distinct es
      → Pairwise Distinct (collect fs i es ts)
  unfolding collect add_target
  collect-Distinct i es [] hs = hs
  collect-Distinct i es (t ∷ ts) hs =
      collect-Distinct (i + 1) (add_target fs i t es) ts
        (elim (Option-cases (target_path_key fs t.path)) [
          | inl e ↦ rw (e, add_target) hs
          | inr (key, e) ↦ rw (e, add_target) (add_candidate-Distinct (new_candidate i key t) es hs)
        ])

  add_target-old :
      (k : Text) (i : ℕ) (es : List NormalizedTarget) (t : DebrisInfo)
      → HasEntry k es
      → HasEntry k (add_target fs i t es)
  unfolding add_target
  add_target-old k i es t h = elim (Option-cases (target_path_key fs t.path)) [
    | inl e ↦ rw (e, add_target) h
    | inr (key, e) ↦ rw (e, add_target) (add_candidate-old k (new_candidate i key t) es h)
  ]

  collect-old :
      (k : Text) (i : ℕ) (es : List NormalizedTarget) (ts : List DebrisInfo)
      → HasEntry k es
      → HasEntry k (collect fs i es ts)
  unfolding collect
  collect-old k i es [] h = h
  collect-old k i es (t ∷ ts) h =
      collect-old k (i + 1) (add_target fs i t es) ts (add_target-old k i es t h)

  pub collect-entry :
      (k : Text) (i : ℕ) (es : List NormalizedTarget) (ts : List DebrisInfo) (t : DebrisInfo)
      → In t ts
      → target_path_key fs t.path ≡ some k
      → HasEntry k (collect fs i es ts)
  unfolding collect add_target
  collect-entry k i es [] t i' e = absurd i'
  collect-entry k i es (s ∷ ts) t (inl q) e =
      let e' : target_path_key fs s.path ≡ some k =
        ap (λ (u : DebrisInfo). target_path_key fs u.path) (sym q) ∙ e in
      collect-old k (i + 1) (add_target fs i s es) ts
        (rw (e', add_target) (add_candidate-new (new_candidate i k s) es))
  collect-entry k i es (s ∷ ts) t (inr j) e =
      collect-entry k (i + 1) (add_target fs i s es) ts t j e
