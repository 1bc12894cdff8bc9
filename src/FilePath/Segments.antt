-- ===== src/FilePath/Segments.antt =====
-- Absolute paths are their names: cleaning gives names, and a path of names is clean.
use mathlib.Core.List.{reverse-reverse, append-nil, append_assoc, reverse-cons}
use aibris.Prelude.{
  ℕ, ◌≡◌, refl, sym, ap, ◌∙◌, Text, List, [], ◌∷◌, ◌++◌, reverse, Bool, true, false, ◌||◌, ◌==◌,
  false≢true, ||-false, text_eq, All, is_empty, arith, Bool-cases, inl, inr,
}
use aibris.FilePath.{
  sep, dot, dot_dot, extend, split_sep, join_sep, is_abs, back, clean_step, resolve, segments,
  abs_path, clean, elements,
}

abbrev pub has_sep : Text → Bool
has_sep [] = false
has_sep (c ∷ s) = c == sep || has_sep s

-- A file name: not empty, no separator, and neither "." nor "..".
pub record IsName (w : Text) : Type 0 where
  pub not_empty : is_empty w ≡ false
  pub not_dot : text_eq w dot ≡ false
  pub not_dot_dot : text_eq w dot_dot ≡ false
  pub no_sep : has_sep w ≡ false

pub split_sep-word : (w : Text) → has_sep w ≡ false → split_sep w ≡ w ∷ []
unfolding split_sep
split_sep-word [] h = refl
split_sep-word (c ∷ w) h = ground (arith, split_sep-word w)

pub split_sep-append : (w s : Text) → has_sep w ≡ false → split_sep (w ++ sep ∷ s) ≡ w ∷ split_sep s
unfolding split_sep
split_sep-append [] s h = refl
split_sep-append (c ∷ w) s h = ground (arith, split_sep-append w s)

pub split_sep-join_sep :
    (w : Text) (ws : List Text) → All IsName (w ∷ ws) → split_sep (join_sep (w ∷ ws)) ≡ w ∷ ws
unfolding join_sep
split_sep-join_sep w [] h = split_sep-word w h.0.no_sep
split_sep-join_sep w (v ∷ ws) h =
    split_sep-append w (join_sep (v ∷ ws)) h.0.no_sep ∙ ap (◌∷◌ w) (split_sep-join_sep v ws h.1)

pub resolve-names :
    (rooted : Bool) (out ws : List Text) → All IsName ws → resolve rooted out ws ≡ reverse ws ++ out
unfolding resolve
resolve-names rooted out [] h = refl
resolve-names rooted out (w ∷ ws) h =
    rw (h.0.not_empty, h.0.not_dot, h.0.not_dot_dot)
      (resolve-names rooted (w ∷ out) ws h.1
        ∙ sym (
            ap (λ (l : List Text). l ++ out) (reverse-cons w ws)
            ∙ append_assoc (reverse ws) (w ∷ []) out))

resolve-abs_path :
    (ws : List Text) → All IsName ws → resolve true [] (split_sep (abs_path ws)) ≡ reverse ws
unfolding abs_path split_sep resolve
resolve-abs_path [] h = refl
resolve-abs_path (w ∷ ws) h =
    ap (resolve true []) (split_sep-join_sep w ws h)
    ∙ resolve-names true [] (w ∷ ws) h
    ∙ append-nil (reverse (w ∷ ws))

pub join_sep-not_empty :
    (w : Text) (ws : List Text) → IsName w → is_empty (join_sep (w ∷ ws)) ≡ false
unfolding join_sep
join_sep-not_empty [] ws h = absurd (false≢true (sym h.not_empty))
join_sep-not_empty (c ∷ w) [] h = refl
join_sep-not_empty (c ∷ w) (v ∷ ws) h = refl

-- A path made of names has just these segments.
pub segments-abs_path : (ws : List Text) → All IsName ws → segments (abs_path ws) ≡ ws
unfolding segments abs_path is_abs
segments-abs_path ws h = ap reverse (resolve-abs_path ws h) ∙ reverse-reverse ws

pub clean-abs_path : (ws : List Text) → All IsName ws → clean (abs_path ws) ≡ abs_path ws
unfolding clean abs_path is_abs
clean-abs_path ws h = ap abs_path (segments-abs_path ws h)

pub elements-abs_path : (ws : List Text) → All IsName ws → elements (abs_path ws) ≡ ws
unfolding elements abs_path
elements-abs_path [] h = refl
elements-abs_path (w ∷ ws) h = rw (join_sep-not_empty w ws h.0) (split_sep-join_sep w ws h)

-- What `clean` makes of an absolute path is a path of names.
abbrev NoSep : Text → Type 0
NoSep w = has_sep w ≡ false

extend-NoSep :
    (c : ℕ) (ws : List Text) → (c == sep) ≡ false → All NoSep ws → All NoSep (extend c ws)
extend-NoSep c [] e h = (ground arith, tt)
extend-NoSep c (w ∷ ws) e h = (ground (arith, h.0), h.1)

split_sep-NoSep : (s : Text) → All NoSep (split_sep s)
unfolding split_sep
split_sep-NoSep [] = (refl, tt)
split_sep-NoSep (c ∷ s) = elim (Bool-cases (c == sep)) [
  | inl e ↦ rw e (refl, split_sep-NoSep s)
  | inr e ↦ rw e (extend-NoSep c (split_sep s) e (split_sep-NoSep s))
]

back-IsName : (out : List Text) → All IsName out → All IsName (back true out)
unfolding back
back-IsName [] h = tt
back-IsName (w ∷ out) h = rw (h.0.not_dot_dot) h.1

clean_step-IsName :
    (out : List Text) (w : Text) → NoSep w → All IsName out → All IsName (clean_step true out w)
unfolding clean_step
clean_step-IsName out w n h = elim (Bool-cases (is_empty w || text_eq w dot)) [
  | inl e ↦ rw e h
  | inr e ↦
      let (some_byte, no_dot) = ||-false (is_empty w) (text_eq w dot) e in
      rw e (elim (Bool-cases (text_eq w dot_dot)) [
        | inl d ↦ rw d (back-IsName out h)
        | inr d ↦
            rw d
              (record { not_empty = some_byte; not_dot = no_dot; not_dot_dot = d; no_sep = n }, h)
      ])
]

resolve-IsName :
    (out ws : List Text) → All NoSep ws → All IsName out → All IsName (resolve true out ws)
unfolding resolve
resolve-IsName out [] n h = h
resolve-IsName out (w ∷ ws) n h =
    resolve-IsName (clean_step true out w) ws n.1 (clean_step-IsName out w n.0 h)

All-append {κ} : (P : Text → Type κ) (xs ys : List Text) → All P xs → All P ys → All P (xs ++ ys)
All-append P [] ys h k = k
All-append P (x ∷ xs) ys h k = (h.0, All-append P xs ys h.1 k)

All-reverse {κ} : (P : Text → Type κ) (xs : List Text) → All P xs → All P (reverse xs)
All-reverse P [] h = tt
All-reverse P (x ∷ xs) h =
    rw (reverse-cons x xs) (All-append P (reverse xs) (x ∷ []) (All-reverse P xs h.1) (h.0, tt))

pub segments-IsName : (p : Text) → is_abs p ≡ true → All IsName (segments p)
unfolding segments
segments-IsName p h =
    All-reverse IsName (resolve (is_abs p) [] (split_sep p))
      (rw h (resolve-IsName [] (split_sep p) (split_sep-NoSep p) tt))

pub clean-abs : (p : Text) → is_abs p ≡ true → clean p ≡ abs_path (segments p)
unfolding clean
clean-abs [] h = cc
clean-abs (c ∷ p) h = rw h
