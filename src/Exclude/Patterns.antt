-- ===== src/Exclude/Patterns.antt =====
-- internal/exclude/exclude.go: New and add.
use aibris.Prelude.{
  Text, codes, List, [], ◌∷◌, Bool, true, false, ◌||◌, Option, none, some, if◌then◌else◌, is_empty,
  any_of, has_prefix, ◌==◌,
}
use aibris.Cleaner.Items.{trim_space}
use aibris.Exclude.{
  ExcludeSource, outside_scan_roots, invalid_glob_pattern, Pattern, Matcher, System,
  scope_within_roots, existing_literal_scope, contains_dot_dot_segment, add_scope, reject,
  add_literal, expand_pattern,
}

-- strings.ContainsAny(candidate, "*?[")
abbrev pub has_glob_bytes : Text → Bool
has_glob_bytes candidate = any_of (λ c. c == 42 || (c == 63 || c == 91)) candidate

-- The body of the loop over the candidates goes on, with `added` and the matcher, or returns.
pub data Pass : Type 0 where
  goes_on : Bool → Matcher → Pass
  returns : Matcher → Pass

module _ (system : System) (raw : Text) (source : ExcludeSource) (roots : List Text) where
  abbrev pub add_scope_or_keep : Option Text → Bool → Matcher → Pass
  add_scope_or_keep none added m = goes_on added m
  add_scope_or_keep (some resolved) added m = goes_on true (add_scope raw resolved source m)

  abbrev pub add_literal_or_keep : Option Text → Pass → Pass
  add_literal_or_keep literal (returns m) = returns m
  add_literal_or_keep none (goes_on added m) = goes_on added m
  add_literal_or_keep (some resolved) (goes_on added m) =
      goes_on true (add_literal raw resolved source m)

  -- The loop over the matches of a glob.
  unfoldable pub add_matches : List Text → Bool → Matcher → Pass
  add_matches [] added m = goes_on added m
  add_matches (path ∷ paths) added m = elim (scope_within_roots system path roots) [
    | none ↦ add_matches paths added m
    | some resolved ↦ add_matches paths true (add_scope raw resolved source m)
  ]

  -- A bad glob is an existing path, or it is rejected.
  abbrev pub without_glob : Option Text → Matcher → Pass
  without_glob none m = returns (reject raw source invalid_glob_pattern m)
  without_glob (some resolved) m = goes_on true (add_literal raw resolved source m)

  abbrev pub add_globbed : Option (List Text) → Option Text → Bool → Matcher → Pass
  add_globbed none literal added m = without_glob literal m
  add_globbed (some paths) literal added m = add_literal_or_keep literal (add_matches paths added m)

  unfoldable pub add_candidate : Text → Bool → Matcher → Pass
  add_candidate candidate added m =
      if has_glob_bytes candidate
      then add_globbed (system.glob candidate) (existing_literal_scope system candidate roots) added
          m
      else add_scope_or_keep (scope_within_roots system candidate roots) added m

  -- The loop over the candidates and the end of add.
  unfoldable pub add_candidates : List Text → Bool → Matcher → Matcher
  add_candidates [] added m = if added then m else reject raw source outside_scan_roots m
  add_candidates (candidate ∷ candidates) added m = elim (add_candidate candidate added m) [
    | returns m' ↦ m'
    | goes_on added' m' ↦ add_candidates candidates added' m'
  ]

  -- add
  unfoldable pub add : Matcher → Matcher
  add m =
      if contains_dot_dot_segment raw
      then reject raw source outside_scan_roots m
      else add_candidates (expand_pattern raw system.home roots) false m

-- A line that is no pattern.
abbrev pub is_skipped : Text → Bool
is_skipped line = is_empty line || has_prefix line (codes "#")

-- The loop of New.
unfoldable pub add_patterns : System → List Text → List Pattern → Matcher → Matcher
add_patterns system roots [] m = m
add_patterns system roots (pattern ∷ patterns) m =
    let line = trim_space pattern.raw in
    add_patterns system roots patterns
      (if is_skipped line then m else add system line pattern.source roots m)

abbrev pub no_scopes : Matcher
no_scopes = record { scopes = []; rejected = [] }

-- New
unfoldable pub new_matcher : System → List Pattern → List Text → Matcher
new_matcher system patterns roots = add_patterns system roots patterns no_scopes
