-- ===== src/Exclude.antt =====
-- internal/exclude/exclude.go: exclusion patterns, resolved against the scan roots. A matcher is
-- changed in place by the source; here each operation gives the new one.
pub mod Patterns
pub mod Examples
pub mod Ignore
pub mod Matches
pub mod Scopes
pub mod Induction
use aibris.Prelude.{
  ℕ, zero, suc, ◌+◌, ◌==◌, Text, codes, List, [], ◌∷◌, ◌++◌, Bool, true, false, ◌&&◌, ◌||◌, not,
  Option, none, some, if◌then◌else◌, text_eq, is_empty, any_of, has_prefix, length,
}
use aibris.FilePath.{sep, dot_dot, split_sep, clean, is_abs, dir, base, join, is_within}
use aibris.Cleaner.Items.{trim_space}
use aibris.Cleaner.Overlap.Identity.{join_all}

-- types.ExcludeSource
pub data ExcludeSource : Type 0 where
  flag ignore_file : ExcludeSource

-- types.ExcludedScope
pub record ExcludedScope : Type 0 where
  pub pattern_text : Text
  pub resolved : Text
  pub source : ExcludeSource
  pub count : ℕ

pub data RejectReason : Type 0 where
  outside_scan_roots invalid_glob_pattern : RejectReason

-- types.RejectedExclude
pub record RejectedExclude : Type 0 where
  pub pattern_text : Text
  pub source : ExcludeSource
  pub reason : RejectReason

pub record Pattern : Type 0 where
  pub raw : Text
  pub source : ExcludeSource

pub record Matcher : Type 0 where
  pub scopes : List ExcludedScope
  pub rejected : List RejectedExclude

-- What the package asks of the system: the home directory (empty where there is none),
-- filepath.EvalSymlinks, whether os.Lstat succeeds, and filepath.Glob (`none` for a bad pattern).
pub record System : Type 0 where
  pub home : Text
  pub eval_symlinks : Text → Option Text
  pub exists : Text → Bool
  pub glob : Text → Option (List Text)

-- The loop of canonicalize up to the deepest ancestor that exists. A path has fewer ancestors than
-- bytes, which are the fuel that its caller gives.
unfoldable pub resolve_ancestor : System → ℕ → Text → List Text → Option Text
resolve_ancestor system zero path missing = none
resolve_ancestor system (suc fuel) path missing =
    let parent = dir path in
    let missing' = base path ∷ missing in
    let rest = resolve_ancestor system fuel parent missing' in
    if text_eq parent path then none else elim (system.eval_symlinks parent) [
      | some resolved ↦ some (join_all resolved missing')
      | none ↦ rest
    ]

abbrev pub or_else : Option Text → Text → Text
or_else none other = other
or_else (some t) other = t

-- canonicalize
unfoldable pub canonicalize : System → Text → Text
canonicalize system path = elim (system.eval_symlinks (clean path)) [
  | some resolved ↦ clean resolved
  | none ↦ or_else (resolve_ancestor system (length (clean path)) (clean path) []) (clean path)
]

abbrev pub in_root : Text → Text → Bool
in_root canonical root = text_eq canonical root || is_within root canonical

-- scopeWithinRoots; `none` is its false.
unfoldable pub scope_within_roots : System → Text → List Text → Option Text
scope_within_roots system path roots =
    let canonical = canonicalize system path in
    if any_of (in_root canonical) roots then some canonical else none

-- existingLiteralScope
unfoldable pub existing_literal_scope : System → Text → List Text → Option Text
existing_literal_scope system candidate roots =
    if system.exists candidate then scope_within_roots system candidate roots else none

-- containsDotDotSegment
unfoldable pub contains_dot_dot_segment : Text → Bool
contains_dot_dot_segment raw = any_of (text_eq dot_dot) (split_sep raw)

-- addScope
unfoldable pub add_scope : Text → Text → ExcludeSource → Matcher → Matcher
add_scope raw resolved source m = record m {
  scopes =
      m.scopes
      ++ (record { pattern_text = raw; resolved = resolved; source = source; count = 0 } ∷ []);
}

-- reject
unfoldable pub reject : Text → ExcludeSource → RejectReason → Matcher → Matcher
reject raw source reason m = record m {
  rejected = m.rejected ++ (record { pattern_text = raw; source = source; reason = reason } ∷ []);
}

abbrev pub same_source : ExcludeSource → ExcludeSource → Bool
same_source ExcludeSource.flag ExcludeSource.flag = true
same_source ExcludeSource.ignore_file ExcludeSource.ignore_file = true
same_source _ _ = false

abbrev pub same_scope : Text → Text → ExcludeSource → ExcludedScope → Bool
same_scope raw resolved source scope =
    text_eq scope.pattern_text raw
    && (text_eq scope.resolved resolved && same_source scope.source source)

-- addExistingLiteral, where existingLiteralScope has found a scope.
unfoldable pub add_literal : Text → Text → ExcludeSource → Matcher → Matcher
add_literal raw resolved source m =
    if any_of (same_scope raw resolved source) m.scopes then m else add_scope raw resolved source m

-- expandPattern
abbrev pub tilde : Text
tilde = codes "~"

abbrev pub tilde_sep : Text
tilde_sep = codes "~/"

abbrev pub without_two : Text → Text
without_two (a ∷ b ∷ rest) = rest
without_two short = short

unfoldable pub anchored : Text → List Text → List Text
anchored raw [] = []
anchored raw (root ∷ roots) = join root raw ∷ anchored raw roots

unfoldable pub expand_pattern : Text → Text → List Text → List Text
expand_pattern raw home roots =
    if text_eq raw tilde
    then (if is_empty home then [] else home ∷ [])
    else if has_prefix raw tilde_sep
    then (if is_empty home then [] else join home (without_two raw) ∷ [])
    else if is_abs raw
    then raw ∷ []
    else anchored raw roots
