-- ===== src/FilePath/Parent.antt =====
-- filepath.Dir of a canonical path: the path without its last name.
use aibris.Prelude.{
  ◌≡◌, refl, sym, ap, ◌∙◌, Text, List, [], ◌∷◌, ◌++◌, reverse, Bool, true, false, is_empty, All,
  arith,
}
use mathlib.Core.List.{reverse-reverse, append-nil, append_assoc}
use aibris.FilePath.{
  sep, split_sep, join_sep, is_abs, clean_step, resolve, segments, abs_path, clean, up_to_last_sep,
  dir,
}
use aibris.FilePath.Segments.{IsName, has_sep, split_sep-append, resolve-names, clean-abs_path}

up_to_last_sep-word : (w : Text) → has_sep w ≡ false → up_to_last_sep w ≡ []
unfolding up_to_last_sep
up_to_last_sep-word [] h = refl
up_to_last_sep-word (c ∷ w) h = ground (arith, up_to_last_sep-word w)

append_not_empty : (x s : Text) → is_empty (x ++ sep ∷ s) ≡ false
append_not_empty [] s = refl
append_not_empty (c ∷ x) s = refl

up_to_last_sep-append :
    (x w : Text) → has_sep w ≡ false → up_to_last_sep (x ++ sep ∷ w) ≡ x ++ sep ∷ []
unfolding up_to_last_sep
up_to_last_sep-append [] w h = rw (up_to_last_sep-word w h) refl
up_to_last_sep-append (c ∷ x) w h =
    rw (up_to_last_sep-append x w h) (rw (append_not_empty x []) refl)

join_sep-append :
    (v : Text) (ws : List Text) (w : Text)
    → join_sep ((v ∷ ws) ++ w ∷ []) ≡ join_sep (v ∷ ws) ++ sep ∷ w
unfolding join_sep
join_sep-append v [] w = refl
join_sep-append v (u ∷ ws) w =
    ap (λ (t : Text). v ++ sep ∷ t) (join_sep-append u ws w)
    ∙ sym (append_assoc v (sep ∷ join_sep (u ∷ ws)) (sep ∷ w))

-- A separator at the end adds an empty word, which is dropped.
split_sep-trailing :
    (v : Text) (ws : List Text)
    → All IsName (v ∷ ws)
    → split_sep (join_sep (v ∷ ws) ++ sep ∷ []) ≡ (v ∷ ws) ++ [] ∷ []
unfolding join_sep split_sep
split_sep-trailing v [] h = split_sep-append v [] h.0.no_sep
split_sep-trailing v (u ∷ ws) h =
    ap split_sep (append_assoc v (sep ∷ join_sep (u ∷ ws)) (sep ∷ []))
    ∙ split_sep-append v (join_sep (u ∷ ws) ++ sep ∷ []) h.0.no_sep
    ∙ ap (◌∷◌ v) (split_sep-trailing u ws h.1)

resolve-trailing :
    (rooted : Bool) (out ws : List Text)
    → resolve rooted out (ws ++ [] ∷ []) ≡ resolve rooted out ws
unfolding resolve
resolve-trailing rooted out [] = refl
resolve-trailing rooted out (w ∷ ws) = resolve-trailing rooted (clean_step rooted out w) ws

clean-trailing :
    (v : Text) (ws : List Text)
    → All IsName (v ∷ ws)
    → clean (abs_path (v ∷ ws) ++ sep ∷ []) ≡ abs_path (v ∷ ws)
unfolding clean abs_path segments is_abs split_sep
clean-trailing v ws h = ap abs_path (
    ap (λ (l : List Text). reverse (resolve true [] ([] ∷ l))) (split_sep-trailing v ws h)
    ∙ ap reverse (resolve-trailing true [] (v ∷ ws))
    ∙ ap reverse (resolve-names true [] (v ∷ ws) h)
    ∙ ap reverse (append-nil (reverse (v ∷ ws)))
    ∙ reverse-reverse (v ∷ ws))

-- filepath.Dir drops the last name.
pub dir-append :
    (ws : List Text) (w : Text)
    → All IsName ws
    → IsName w
    → dir (abs_path (ws ++ w ∷ [])) ≡ abs_path ws
unfolding dir abs_path join_sep
dir-append [] w h n = ap clean (up_to_last_sep-append [] w n.no_sep) ∙ clean-abs_path [] tt
dir-append (v ∷ ws) w h n =
    ap (λ (t : Text). clean (up_to_last_sep (sep ∷ t))) (join_sep-append v ws w)
    ∙ ap clean (up_to_last_sep-append (sep ∷ join_sep (v ∷ ws)) w n.no_sep)
    ∙ clean-trailing v ws h

-- The root is its own parent.
pub dir-root : dir (abs_path []) ≡ abs_path []
unfolding dir abs_path join_sep
dir-root = ap clean (up_to_last_sep-append [] [] refl) ∙ clean-abs_path [] tt
