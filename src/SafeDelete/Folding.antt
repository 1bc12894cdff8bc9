-- ===== src/SafeDelete/Folding.antt =====
-- internal/safedelete/safedelete.go: coversProtected after foldCase.
use aibris.Prelude.{
  ◌≡◌, refl, sym, ap, ◌∙◌, Text, [], ◌∷◌, ◌++◌, true, false, false≢true, text_eq, text_eq_iff,
  text_eq_refl, has_prefix, arith, Bool-cases, inl, inr,
}
use mathlib.Core.List.{append_assoc}
use aibris.FilePath.{sep}
use aibris.SafeDelete.{Disk, fold_case}
use aibris.SafeDelete.Identity.{covers_protected}
use aibris.SafeDelete.Covering.{has_prefix-append}

-- strings.ToLower maps letter by letter, so it keeps separators and works on what is between them.
abbrev pub LowersParts : Disk → Type 0
LowersParts disk =
    (a b : Text) → disk.to_lower (a ++ sep ∷ b) ≡ disk.to_lower a ++ sep ∷ disk.to_lower b

has_prefix-rest : (s p : Text) → has_prefix s p ≡ true → (r : Text) × (s ≡ p ++ r)
unfolding has_prefix
has_prefix-rest s [] h = (s, refl)
has_prefix-rest [] (c ∷ p) h = cc
has_prefix-rest (d ∷ s) (c ∷ p) h =
    let (r, e) = has_prefix-rest s p (ground arith) in let same : d ≡ c = ground arith in (r, cc)

covered_below : (a b : Text) → covers_protected a (a ++ sep ∷ b) ≡ true
unfolding covers_protected has_prefix
covered_below a b = ground (arith, has_prefix-append a (sep ∷ b) (sep ∷ []))

covered_itself : (a : Text) → covers_protected a a ≡ true
unfolding covers_protected
covered_itself a = ground (arith, text_eq_refl a)

fold_case-join :
    (disk : Disk)
    → LowersParts disk
    → (a b : Text) → fold_case disk (a ++ sep ∷ b) ≡ fold_case disk a ++ sep ∷ fold_case disk b
unfolding fold_case
fold_case-join disk lower_join a b = elim (Bool-cases disk.folds_case) [
  | inl e ↦ rw e (lower_join a b)
  | inr e ↦ rw e refl
]

fold_case-covers :
    (disk : Disk)
    → LowersParts disk
    → (target location : Text) → covers_protected target location ≡ true
    → covers_protected (fold_case disk target) (fold_case disk location) ≡ true
unfolding covers_protected
fold_case-covers disk lower_join target location h =
    let folded = covers_protected (fold_case disk target) in
    elim (Bool-cases (text_eq target location)) [
      | inl e ↦
          ap (λ (t : Text). folded (fold_case disk t)) (sym ((text_eq_iff target location).0 e))
          ∙ covered_itself (fold_case disk target)
      | inr e ↦
          let (r, q) = has_prefix-rest location (target ++ sep ∷ []) (ground arith) in
          ap (λ (t : Text). folded (fold_case disk t)) (q ∙ append_assoc target (sep ∷ []) r)
          ∙ ap folded (fold_case-join disk lower_join target r)
          ∙ covered_below (fold_case disk target) (fold_case disk r)
    ]

pub fold_case-uncovered :
    (disk : Disk)
    → LowersParts disk
    → (target location : Text)
    → covers_protected (fold_case disk target) (fold_case disk location) ≡ false
    → covers_protected target location ≡ false
fold_case-uncovered disk lower_join target location h =
    elim (Bool-cases (covers_protected target location)) [
      | inl e ↦ absurd (false≢true (sym h ∙ fold_case-covers disk lower_join target location e))
      | inr e ↦ e
    ]
