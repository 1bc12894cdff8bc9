-- ===== src/Command/Examples.antt =====
-- Concrete runs of the theorems about the clean command, and tests.
use aibris.Prelude.{
  ◌≡◌, refl, Text, codes, List, [], ◌∷◌, true, false, inl, inr, In, is_empty, any_of, text_eq,
}
use aibris.Types.{Category}
use aibris.Cleaner.Items.{trim_space}
use aibris.Command.Route.{Route, Refusal, RouteInput, takes, select_route, select_route-takes}
use aibris.Command.Selectors.{
  split_comma, select_values, parse_clean_selector, parse_clean_categories,
}
use aibris.Command.Selectors.Parsed.{
  AllValid, Distinct, parse_clean_selector_sound, parse_clean_selector-covers,
}

-- `clean --json --force`
abbrev forced_json : RouteInput
forced_json = record {
  include_paths = false;
  receipt_file = [];
  dry_run = false;
  guide = false;
  no_guide = false;
  strip = false;
  apfs_snapshots = false;
  json = true;
  interactive = false;
  force = true;
}

select_route-takes_example :
    (takes Route.apfs (select_route forced_json []) ≡ false)
    × (takes Route.strip (select_route forced_json []) ≡ false)
    × (takes Route.json (select_route forced_json []) ≡ true)
    × (takes Route.scan (select_route forced_json []) ≡ false)
select_route-takes_example = select_route-takes forced_json []

-- Without consent the JSON route is refused.
unforced_test :
    select_route (record forced_json { force = false }) [] ≡ inr Refusal.json_without_consent
unfolding select_route
unforced_test = refl

abbrev raw : Text
raw = codes "codex, pip,codex"

abbrev tools : List Text
tools = codes "codex" ∷ codes "pip" ∷ []

raw-parsed : parse_clean_selector raw tools ≡ inl tools
unfolding parse_clean_selector select_values split_comma trim_space any_of text_eq
raw-parsed = refl

parse_clean_selector_sound_example :
    (is_empty tools ≡ false) × AllValid tools tools × Distinct tools
parse_clean_selector_sound_example = parse_clean_selector_sound raw tools tools refl raw-parsed

part-In : In (codes " pip") (split_comma raw)
unfolding split_comma
part-In = inr (inl refl)

part-named : is_empty (trim_space (codes " pip")) ≡ false
unfolding trim_space
part-named = refl

parse_clean_selector-covers_example : In (trim_space (codes " pip")) tools
parse_clean_selector-covers_example =
    parse_clean_selector-covers raw tools tools (codes " pip") refl raw-parsed part-In part-named

categories_test :
    parse_clean_categories (codes "worktree,ai-logs")
    ≡ inl (Category.worktree ∷ Category.ai_logs ∷ [])
unfolding parse_clean_categories parse_clean_selector select_values split_comma trim_space any_of
    text_eq
categories_test = refl
