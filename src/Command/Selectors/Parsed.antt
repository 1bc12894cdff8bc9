-- ===== src/Command/Selectors/Parsed.antt =====
-- cmd/clean_parse.go: what a parse of a selector gives.
use aibris.Prelude.{
  ◌≡◌, refl, sym, ap, subst, Text, List, [], ◌∷◌, ◌++◌, true, false, ◌||◌, not, ◌⊎◌, inl, inr,
  if◌then◌else◌, is_empty, text_eq, arith, All, Pairwise, In, if_either, Pairwise-snoc, All-snoc,
  any_of-false, any_of-In, text_eq→eq, In-append_left, In-append_right,
}
use aibris.Cleaner.Items.{trim_space}
use aibris.Command.Selectors.{
  SelectorError, split_comma, is_one_of, select_values, require_one, parse_clean_selector,
  invalid_value,
}

inl-injective : (a b : List Text) → ◌≡◌ {A = List Text ⊎ SelectorError} (inl a) (inl b) → a ≡ b
inl-injective a b e = cc

-- What a parse leaves: valid values, each once.
abbrev pub Distinct : List Text → Type 0
Distinct = Pairwise (λ a b. text_eq b a ≡ false)

abbrev pub AllValid : List Text → List Text → Type 0
AllValid valid = All (λ v. is_one_of valid v ≡ true)

abbrev Sound : List Text → List Text → Type 0
Sound valid values = AllValid valid values × Distinct values

abbrev IfSelected : List Text → List Text ⊎ SelectorError → Type 0
IfSelected valid r = (values : List Text) → r ≡ inl values → Sound valid values

abbrev next_values : List Text → Text → List Text
next_values values value =
    if is_empty value || is_one_of values value then values else values ++ value ∷ []

next_values-Sound :
    (valid values : List Text) (value : Text)
    → Sound valid values
    → (is_empty value || is_one_of valid value) ≡ true
    → Sound valid (next_values values value)
next_values-Sound valid values value h ok =
    if_either (Sound valid) (is_empty value || is_one_of values value) values (values ++ value ∷ [])
      (λ e. h)
      (λ e. (
        All-snoc (λ v. is_one_of valid v ≡ true) values value h.0 (ground arith),
        Pairwise-snoc (λ a b. text_eq b a ≡ false) values value h.1
            (any_of-false (text_eq value) values (ground arith)),
      ))

select_values-Sound :
    (valid values parts : List Text)
    → Sound valid values
    → IfSelected valid (select_values valid values parts)
unfolding select_values
select_values-Sound valid values [] h = λ out e. subst (Sound valid) (inl-injective values out e) h
select_values-Sound valid values (part ∷ parts) h =
    let value = trim_space part in
    let rest = select_values valid (next_values values value) parts in
    if_either (IfSelected valid) (is_empty value) rest
      (if not (is_one_of valid value) then inr (invalid_value value) else rest)
      (λ e.
        select_values-Sound valid (next_values values value) parts
          (next_values-Sound valid values value h (ground arith)))
      (λ e.
        if_either (IfSelected valid) (not (is_one_of valid value)) (inr (invalid_value value)) rest
          (λ bad out q. cc)
          (λ good.
            select_values-Sound valid (next_values values value) parts
              (next_values-Sound valid values value h (ground arith))))

-- Nothing that is selected is dropped later.
abbrev Keeps : Text → List Text ⊎ SelectorError → Type 0
Keeps v r = (out : List Text) → r ≡ inl out → In v out

In-next_values :
    (v value : Text) (values : List Text) → In v values → In v (next_values values value)
In-next_values v value values i =
    if_either (In v) (is_empty value || is_one_of values value) values (values ++ value ∷ [])
      (λ e. i) (λ e. In-append_left values (value ∷ []) v i)

select_values-Keeps :
    (v : Text) (valid values parts : List Text)
    → In v values
    → Keeps v (select_values valid values parts)
unfolding select_values
select_values-Keeps v valid values [] i = λ out e. subst (In v) (inl-injective values out e) i
select_values-Keeps v valid values (part ∷ parts) i =
    let value = trim_space part in
    let rest = select_values valid (next_values values value) parts in
    let kept =
      select_values-Keeps v valid (next_values values value) parts
        (In-next_values v value values i) in
    if_either (Keeps v) (is_empty value) rest
      (if not (is_one_of valid value) then inr (invalid_value value) else rest) (λ e. kept)
      (λ e.
        if_either (Keeps v) (not (is_one_of valid value)) (inr (invalid_value value)) rest
          (λ bad out q. cc) (λ good. kept))

is_one_of-In : (values : List Text) (v : Text) → is_one_of values v ≡ true → In v values
is_one_of-In values v h =
    let (a, i, e) = any_of-In (text_eq v) values h in
    subst (λ x. In x values) (sym (text_eq→eq v a e)) i

In-next_self :
    (value : Text) (values : List Text)
    → is_empty value ≡ false
    → In value (next_values values value)
In-next_self value values named =
    if_either (In value) (is_empty value || is_one_of values value) values (values ++ value ∷ [])
      (λ e. is_one_of-In values value (ground arith))
      (λ e. In-append_right values (value ∷ []) value (inl refl))

select_values-covers :
    (valid values parts : List Text) (part : Text)
    → In part parts
    → is_empty (trim_space part) ≡ false
    → Keeps (trim_space part) (select_values valid values parts)
unfolding select_values
select_values-covers valid values [] part i named = absurd i
select_values-covers valid values (p ∷ parts) part i named =
    let value = trim_space p in
    let rest = select_values valid (next_values values value) parts in
    let kept : Keeps (trim_space part) rest = elim i [
      | inl q ↦
          let e : trim_space part ≡ value = ap trim_space q in
          select_values-Keeps (trim_space part) valid (next_values values value) parts (
            subst (λ t. In t (next_values values value)) (sym e)
              (In-next_self value values (subst (λ t. is_empty t ≡ false) e named)))
      | inr j ↦ select_values-covers valid (next_values values value) parts part j named
    ] in
    if_either (Keeps (trim_space part)) (is_empty value) rest
      (if not (is_one_of valid value) then inr (invalid_value value) else rest) (λ e. kept)
      (λ e.
        if_either (Keeps (trim_space part)) (not (is_one_of valid value))
          (inr (invalid_value value)) rest (λ bad out q. cc) (λ good. kept))

require_one-inl :
    (r : List Text ⊎ SelectorError) (values : List Text)
    → require_one r ≡ inl values
    → (r ≡ inl values) × (is_empty values ≡ false)
require_one-inl (inr error) values e = cc
require_one-inl (inl []) values e = cc
require_one-inl (inl (v ∷ vs)) values e =
    (e, subst (λ xs. is_empty xs ≡ false) (inl-injective (v ∷ vs) values e) refl)

parsed-inl :
    (raw : Text) (valid values : List Text)
    → is_empty raw ≡ false
    → parse_clean_selector raw valid ≡ inl values
    → (select_values valid [] (split_comma raw) ≡ inl values) × (is_empty values ≡ false)
unfolding parse_clean_selector
parsed-inl raw valid values named e =
    let parsed = select_values valid [] (split_comma raw) in
    let e' : require_one parsed ≡ inl values = rw named at e in require_one-inl parsed values e'

-- A parse of a text that is not empty and gives values: there is at least one, each is valid, and
-- none is given twice.
pub parse_clean_selector_sound :
    (raw : Text) (valid values : List Text)
    → is_empty raw ≡ false
    → parse_clean_selector raw valid ≡ inl values
    → (is_empty values ≡ false) × AllValid valid values × Distinct values
parse_clean_selector_sound raw valid values named e =
    let (q, some_value) = parsed-inl raw valid values named e in
    let (v, d) = select_values-Sound valid [] (split_comma raw) (tt, tt) values q in
    (some_value, v, d)

-- Where a parse of a text that is not empty gives values, every part of the text between commas that
-- is not blank is one of them, without the space around it.
pub parse_clean_selector-covers :
    (raw : Text) (valid values : List Text) (part : Text)
    → is_empty raw ≡ false
    → parse_clean_selector raw valid ≡ inl values
    → In part (split_comma raw)
    → is_empty (trim_space part) ≡ false
    → In (trim_space part) values
parse_clean_selector-covers raw valid values part named e i full =
    select_values-covers valid [] (split_comma raw) part i full values
      (parsed-inl raw valid values named e).0
