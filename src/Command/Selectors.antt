-- ===== src/Command/Selectors.antt =====
-- cmd/clean_parse.go: the values of --category and --tool. An error is the case that it stands for,
-- in place of its text.
pub mod Parsed
use aibris.Prelude.{
  ◌≡◌, refl, sym, ap, subst, ℕ, Text, codes, List, [], ◌∷◌, ◌++◌, Bool, true, false, ◌||◌, not, ◌⊎◌,
  inl, inr, if◌then◌else◌, is_empty, text_eq, any_of, arith, ◌==◌, map, All, Pairwise, In,
  if_either, Pairwise-snoc, All-snoc, any_of-false, any_of-In, text_eq→eq, In-append_left,
  In-append_right,
}
use aibris.Types.{Category, category_text}
use aibris.Cleaner.Items.{trim_space}

pub data SelectorError : Type 0 where
  invalid_value : Text → SelectorError
  no_value : SelectorError

abbrev extend : ℕ → List Text → List Text
extend c [] = (c ∷ []) ∷ []
extend c (word ∷ words) = (c ∷ word) ∷ words

-- strings.Split(raw, ",")
unfoldable pub split_comma : Text → List Text
split_comma [] = [] ∷ []
split_comma (c ∷ s) = let rest = split_comma s in if c == 44 then [] ∷ rest else extend c rest

abbrev pub is_one_of : List Text → Text → Bool
is_one_of texts text = any_of (text_eq text) texts

-- The loop over the parts; the keys of `seen` are the values so far.
unfoldable pub select_values : List Text → List Text → List Text → List Text ⊎ SelectorError
select_values valid values [] = inl values
select_values valid values (part ∷ parts) =
    let value = trim_space part in
    let skip = is_empty value || is_one_of values value in
    let rest = select_values valid (if skip then values else values ++ value ∷ []) parts in
    if is_empty value
    then rest
    else if not (is_one_of valid value)
    then inr (invalid_value value)
    else rest

abbrev pub require_one : List Text ⊎ SelectorError → List Text ⊎ SelectorError
require_one (inr error) = inr error
require_one (inl []) = inr no_value
require_one (inl (value ∷ values)) = inl (value ∷ values)

-- parseCleanSelector
unfoldable pub parse_clean_selector : Text → List Text → List Text ⊎ SelectorError
parse_clean_selector raw valid =
    if is_empty raw then inl [] else require_one (select_values valid [] (split_comma raw))

abbrev pub valid_clean_categories : List Category
valid_clean_categories =
    Category.worktree ∷ Category.node_modules ∷ Category.build_cache ∷ Category.other_cache
    ∷ Category.agent_state ∷ Category.ai_logs ∷ []

-- types.Category(value)
abbrev pub category_of : Text → Category
category_of value =
    if text_eq value (codes "worktree")
    then Category.worktree
    else if text_eq value (codes "node_modules")
    then Category.node_modules
    else if text_eq value (codes "build-cache")
    then Category.build_cache
    else if text_eq value (codes "other-cache")
    then Category.other_cache
    else if text_eq value (codes "agent-state")
    then Category.agent_state
    else if text_eq value (codes "ai-logs")
    then Category.ai_logs
    else if is_empty value
    then Category.unset
    else Category.other value

abbrev pub map_values :
    {A : Type 0} → (Text → A) → List Text ⊎ SelectorError → List A ⊎ SelectorError
map_values f (inl values) = inl (map f values)
map_values f (inr error) = inr error

-- parseCleanCategories
unfoldable pub parse_clean_categories : Text → List Category ⊎ SelectorError
parse_clean_categories raw =
    map_values category_of (parse_clean_selector raw (map category_text valid_clean_categories))
