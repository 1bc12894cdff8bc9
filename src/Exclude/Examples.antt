-- ===== src/Exclude/Examples.antt =====
-- Concrete runs of the theorems about exclusions, and tests.
use aibris.Prelude.{
  ◌≡◌, refl, ◌+◌, Text, codes, List, [], ◌∷◌, true, false, none, some, if◌then◌else◌, text_eq, inl,
  All, has_prefix, any_of,
}
use aibris.FilePath.{
  clean, is_abs, rel, rel_elements, elements, stays_below, dir, base, join, abs_path, is_within,
  up_to_last_sep, trim_right_sep, last_word, split_sep,
}
use aibris.Cleaner.Items.{trim_space}
use aibris.Exclude.{
  ExcludeSource, Pattern, Matcher, System, canonicalize, scope_within_roots, add_scope, reject,
  existing_literal_scope, contains_dot_dot_segment, expand_pattern, anchored, add_literal,
}
use aibris.Exclude.Patterns.{
  is_skipped, add, add_patterns, add_candidates, add_candidate, add_matches, new_matcher,
}
use aibris.Exclude.Scopes.{Honored, Recorded, new_matcher-Honored, new_matcher-Recorded}
use aibris.Exclude.Matches.{
  match_path, match_hidden, is_covered, canonical_candidates, total_count, resolved_of, count_match,
  match_candidates, match_path-counts,
}
use aibris.Exclude.Ignore.{
  IgnoreSystem, IsPatternLine, written, read_ignore_file, read_ignore_file-written,
}

abbrev plain : System
plain = record {
  home = codes "/h";
  eval_symlinks = λ p. some p;
  exists = λ p. true;
  glob = λ p. some (codes "/h/a" ∷ []);
}

abbrev roots : List Text
roots = codes "/h" ∷ []

abbrev named : Pattern
named = record { raw = codes " a"; source = ExcludeSource.flag }

abbrev outside : Pattern
outside = record { raw = codes "/x"; source = ExcludeSource.flag }

abbrev patterns : List Pattern
patterns = named ∷ outside ∷ []

abbrev excluded : Matcher
excluded = record {
  scopes =
      record {
        pattern_text = codes "a";
        resolved = codes "/h/a";
        source = ExcludeSource.flag;
        count = 0;
      }
      ∷ [];
  rejected = [];
}

named-added : (new_matcher plain (named ∷ []) roots) ≡ excluded
unfolding new_matcher add_patterns add add_candidates add_candidate add_matches add_scope
    add_literal reject scope_within_roots existing_literal_scope contains_dot_dot_segment
    expand_pattern anchored trim_space aibris.Cleaner.Items.trim_left_space
    aibris.Cleaner.Items.trim_right_space text_eq clean join is_abs split_sep abs_path any_of
    has_prefix rel rel_elements elements stays_below is_within canonicalize aibris.FilePath.back
    aibris.FilePath.clean_step aibris.FilePath.join_sep aibris.FilePath.resolve
    aibris.FilePath.segments
named-added = refl

new_matcher-Honored_example : All (Honored roots) (new_matcher plain patterns roots).scopes
new_matcher-Honored_example = new_matcher-Honored roots plain patterns

named-used : is_skipped (trim_space named.raw) ≡ false
unfolding trim_space has_prefix aibris.Cleaner.Items.trim_left_space
    aibris.Cleaner.Items.trim_right_space
named-used = refl

new_matcher-Recorded_example :
    Recorded (trim_space named.raw) ExcludeSource.flag (new_matcher plain patterns roots)
new_matcher-Recorded_example = new_matcher-Recorded plain roots named patterns (inl refl) named-used

match_path-counts_example :
    ((match_path true plain excluded (codes "/h")).0
      ≡ is_covered true (canonical_candidates plain (codes "/h")) excluded.scopes)
    × (total_count (match_path true plain excluded (codes "/h")).1.scopes
        ≡ (if is_covered true (canonical_candidates plain (codes "/h")) excluded.scopes
            then 1
            else 0)
          + total_count excluded.scopes)
    × (resolved_of (match_path true plain excluded (codes "/h")).1.scopes
        ≡ resolved_of excluded.scopes)
    × ((match_path true plain excluded (codes "/h")).1.rejected ≡ excluded.rejected)
match_path-counts_example = match_path-counts plain excluded (codes "/h") true

hidden : (match_hidden plain excluded (codes "/h/a/b")).0 ≡ true
unfolding match_hidden match_path match_candidates count_match canonical_candidates text_eq clean
    join is_abs split_sep abs_path any_of has_prefix rel rel_elements elements stays_below is_within
    canonicalize aibris.FilePath.back aibris.FilePath.clean_step aibris.FilePath.join_sep
    aibris.FilePath.resolve aibris.FilePath.segments
hidden = refl

not-hidden : (match_hidden plain excluded (codes "/h")).0 ≡ false
unfolding match_hidden match_path match_candidates count_match canonical_candidates text_eq clean
    join is_abs split_sep abs_path any_of has_prefix rel rel_elements elements stays_below is_within
    canonicalize aibris.FilePath.back aibris.FilePath.clean_step aibris.FilePath.join_sep
    aibris.FilePath.resolve aibris.FilePath.segments
not-hidden = refl

abbrev two_lines : List Text
two_lines = codes "a b" ∷ codes "c" ∷ []

abbrev with_file : IgnoreSystem
with_file = record {
  xdg_config_home = [];
  user_home = none;
  read_file = λ p. some (written two_lines);
}

a_b-IsPatternLine : IsPatternLine (codes "a b")
unfolding trim_space has_prefix aibris.Cleaner.Items.trim_left_space
    aibris.Cleaner.Items.trim_right_space any_of
a_b-IsPatternLine = record { one_line = refl; trimmed = refl; used = refl }

c-IsPatternLine : IsPatternLine (codes "c")
unfolding trim_space has_prefix aibris.Cleaner.Items.trim_left_space
    aibris.Cleaner.Items.trim_right_space any_of
c-IsPatternLine = record { one_line = refl; trimmed = refl; used = refl }

read_ignore_file-written_example : read_ignore_file with_file (codes "/i") ≡ two_lines
read_ignore_file-written_example =
    read_ignore_file-written with_file (codes "/i") two_lines refl refl
      (a_b-IsPatternLine, (c-IsPatternLine, tt))
