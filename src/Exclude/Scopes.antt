-- ===== src/Exclude/Scopes.antt =====
-- internal/exclude/exclude.go: the scopes that New honors, and the patterns that it accounts for.
use aibris.Prelude.{
  ◌≡◌, refl, subst, Text, List, [], ◌∷◌, Bool, true, false, ◌&&◌, ◌||◌, ◌⊎◌, inl, inr, if_either,
  if◌then◌else◌, any_of, any_of-In, In, All, All-snoc, In-append_left, In-append_right, text_eq,
  text_eq_iff, &&-true, false≢true,
}
use aibris.FilePath.{is_within}
use aibris.Cleaner.Items.{trim_space}
use aibris.Exclude.{
  ExcludeSource, ExcludedScope, RejectReason, RejectedExclude, Pattern, Matcher, System, in_root,
  contains_dot_dot_segment, add_scope, reject, same_source, same_scope,
}
use aibris.Exclude.Patterns.{add, is_skipped, add_patterns, no_scopes, new_matcher}
use aibris.Exclude.Induction.{Steps, add-R}

-- A scope of a pattern without "..", at or below one of the roots.
pub record Honored (roots : List Text) (scope : ExcludedScope) : Type 0 where
  pub plain : contains_dot_dot_segment scope.pattern_text ≡ false
  pub root : Text
  pub is_root : In root roots
  pub at_or_below : (scope.resolved ≡ root) ⊎ (is_within root scope.resolved ≡ true)

either : (a b : Bool) → (a || b) ≡ true → (a ≡ true) ⊎ (b ≡ true)
either true b h = inl refl
either false b h = inr h

Honored-intro :
    (roots : List Text) (scope : ExcludedScope)
    → contains_dot_dot_segment scope.pattern_text ≡ false
    → any_of (in_root scope.resolved) roots ≡ true
    → Honored roots scope
Honored-intro roots scope plain found =
    let (root, i, e) = any_of-In (in_root scope.resolved) roots found in
    record {
      plain = plain;
      root = root;
      is_root = i;
      at_or_below = elim (either (text_eq scope.resolved root) (is_within root scope.resolved) e) [
        | inl same ↦ inl ((text_eq_iff scope.resolved root).0 same)
        | inr below ↦ inr below
      ];
    }

module _ (roots : List Text) where
  AllHonored : Matcher → Type 0
  AllHonored m = All (Honored roots) m.scopes

  honored-Steps :
      (raw : Text) (source : ExcludeSource)
      → Steps raw source roots (λ added m. AllHonored m) AllHonored
  unfolding AllHonored add_scope reject
  honored-Steps raw source = record {
    scoped = λ added m r plain i p.
        All-snoc (Honored roots) m.scopes
          (record { pattern_text = raw; resolved = r; source = source; count = 0 }) p
          (Honored-intro roots
            (record { pattern_text = raw; resolved = r; source = source; count = 0 }) plain i);
    known = λ added m r e p. p;
    rejected = λ added m reason p. p;
    done = λ m p. p;
  }

  patterns-AllHonored :
      (system : System) (patterns : List Pattern) (m : Matcher)
      → AllHonored m
      → AllHonored (add_patterns system roots patterns m)
  unfolding add_patterns
  patterns-AllHonored system [] m p = p
  patterns-AllHonored system (pattern ∷ patterns) m p = patterns-AllHonored system patterns _ (
      if_either AllHonored (is_skipped (trim_space pattern.raw)) _ _ (λ e. p)
        (λ e.
          add-R system (trim_space pattern.raw) pattern.source roots (λ added m'. AllHonored m')
            AllHonored (honored-Steps (trim_space pattern.raw) pattern.source) m p))

  -- Every scope of a new matcher comes from a pattern without a segment ".." and lies at or below one
  -- of the scan roots.
  pub new_matcher-Honored :
      (system : System) (patterns : List Pattern)
      → All (Honored roots) (new_matcher system patterns roots).scopes
  unfolding new_matcher AllHonored
  new_matcher-Honored system patterns = patterns-AllHonored system patterns no_scopes tt

-- A scope, or a rejection, of a pattern.
abbrev pub HasScope : Text → ExcludeSource → Matcher → Type 0
HasScope raw source m =
    (scope : ExcludedScope) × In scope m.scopes
    × (scope.pattern_text ≡ raw)
    × (scope.source ≡ source)

abbrev pub HasRejection : Text → ExcludeSource → Matcher → Type 0
HasRejection raw source m =
    (entry : RejectedExclude) × In entry m.rejected
    × (entry.pattern_text ≡ raw)
    × (entry.source ≡ source)

abbrev pub Recorded : Text → ExcludeSource → Matcher → Type 0
Recorded raw source m = HasScope raw source m ⊎ HasRejection raw source m

add_scope-HasScope :
    (raw : Text) (source : ExcludeSource) (r : Text) (m : Matcher)
    → HasScope raw source (add_scope raw r source m)
unfolding add_scope
add_scope-HasScope raw source r m =
    let scope : ExcludedScope = record {
      pattern_text = raw;
      resolved = r;
      source = source;
      count = 0;
    } in
    (scope, In-append_right m.scopes (scope ∷ []) scope (inl refl), refl, refl)

reject-Recorded :
    (raw : Text) (source : ExcludeSource) (reason : RejectReason) (m : Matcher)
    → Recorded raw source (reject raw source reason m)
unfolding reject
reject-Recorded raw source reason m =
    let entry : RejectedExclude = record { pattern_text = raw; source = source; reason = reason } in
    inr (entry, In-append_right m.rejected (entry ∷ []) entry (inl refl), refl, refl)

same_source-eq : (a b : ExcludeSource) → same_source a b ≡ true → a ≡ b
same_source-eq ExcludeSource.flag ExcludeSource.flag h = refl
same_source-eq ExcludeSource.ignore_file ExcludeSource.ignore_file h = refl
same_source-eq ExcludeSource.flag ExcludeSource.ignore_file h = cc
same_source-eq ExcludeSource.ignore_file ExcludeSource.flag h = cc

known-HasScope :
    (raw r : Text) (source : ExcludeSource) (m : Matcher)
    → any_of (same_scope raw r source) m.scopes ≡ true
    → HasScope raw source m
known-HasScope raw r source m found =
    let (scope, i, e) = any_of-In (same_scope raw r source) m.scopes found in
    let (p, rest) =
      &&-true (text_eq scope.pattern_text raw)
        (text_eq scope.resolved r && same_source scope.source source) e in
    let (_, s) = &&-true (text_eq scope.resolved r) (same_source scope.source source) rest in
    (scope, i, (text_eq_iff scope.pattern_text raw).0 p, same_source-eq scope.source source s)

module _ (raw : Text) (source : ExcludeSource) (roots : List Text) where
  own-Steps :
      Steps raw source roots (λ added m. added ≡ true → HasScope raw source m) (Recorded raw source)
  own-Steps = record {
    scoped = λ added m r plain i p added_before. add_scope-HasScope raw source r m;
    known = λ added m r e p added_before. known-HasScope raw r source m e;
    rejected = λ added m reason p. reject-Recorded raw source reason m;
    done = λ m p. inl (p refl);
  }

  add-Recorded :
      (system : System) (m : Matcher) → Recorded raw source (add system raw source roots m)
  add-Recorded system m =
      add-R system raw source roots (λ added m'. added ≡ true → HasScope raw source m')
        (Recorded raw source) own-Steps m (λ e. absurd (false≢true e))

-- Entries are only ever appended.
module _ (line : Text) (origin : ExcludeSource) where
  add_scope-keeps :
      (raw : Text) (source : ExcludeSource) (r : Text) (m : Matcher)
      → Recorded line origin m
      → Recorded line origin (add_scope raw r source m)
  unfolding add_scope
  add_scope-keeps raw source r m (inl (scope, i, t, o)) =
      inl (scope, In-append_left m.scopes _ scope i, t, o)
  add_scope-keeps raw source r m (inr h) = inr h

  reject-keeps :
      (raw : Text) (source : ExcludeSource) (reason : RejectReason) (m : Matcher)
      → Recorded line origin m
      → Recorded line origin (reject raw source reason m)
  unfolding reject
  reject-keeps raw source reason m (inl h) = inl h
  reject-keeps raw source reason m (inr (entry, i, t, o)) =
      inr (entry, In-append_left m.rejected _ entry i, t, o)

  kept-Steps :
      (raw : Text) (source : ExcludeSource) (roots : List Text)
      → Steps raw source roots (λ added m. Recorded line origin m) (Recorded line origin)
  kept-Steps raw source roots = record {
    scoped = λ added m r plain i p. add_scope-keeps raw source r m p;
    known = λ added m r e p. p;
    rejected = λ added m reason p. reject-keeps raw source reason m p;
    done = λ m p. p;
  }

  patterns-keeps :
      (system : System) (roots : List Text) (patterns : List Pattern) (m : Matcher)
      → Recorded line origin m
      → Recorded line origin (add_patterns system roots patterns m)
  unfolding add_patterns
  patterns-keeps system roots [] m p = p
  patterns-keeps system roots (pattern ∷ patterns) m p = patterns-keeps system roots patterns _ (
      if_either (Recorded line origin) (is_skipped (trim_space pattern.raw)) _ _ (λ e. p)
        (λ e.
          add-R system (trim_space pattern.raw) pattern.source roots
            (λ added m'. Recorded line origin m') (Recorded line origin)
            (kept-Steps (trim_space pattern.raw) pattern.source roots) m p))

module _ (system : System) (roots : List Text) (pattern : Pattern) where
  patterns-Recorded :
      (patterns : List Pattern) (m : Matcher)
      → In pattern patterns
      → is_skipped (trim_space pattern.raw) ≡ false
      → Recorded (trim_space pattern.raw) pattern.source (add_patterns system roots patterns m)
  unfolding add_patterns
  patterns-Recorded [] m i live = absurd i
  patterns-Recorded (x ∷ patterns) m (inr j) live = patterns-Recorded patterns _ j live
  patterns-Recorded (x ∷ patterns) m (inl q) live =
      patterns-keeps (trim_space pattern.raw) pattern.source system roots patterns _ (
        subst
          (λ (y : Pattern). Recorded (trim_space pattern.raw) pattern.source (
            if is_skipped (trim_space y.raw)
            then m
            else add system (trim_space y.raw) y.source roots m))
          q (rw live (add-Recorded (trim_space pattern.raw) pattern.source roots system m)))

  -- Every pattern that is neither blank nor a comment is honored by a scope or rejected, with its
  -- text and its source.
  pub new_matcher-Recorded :
      (patterns : List Pattern)
      → In pattern patterns
      → is_skipped (trim_space pattern.raw) ≡ false
      → Recorded (trim_space pattern.raw) pattern.source (new_matcher system patterns roots)
  unfolding new_matcher
  new_matcher-Recorded patterns i live = patterns-Recorded patterns no_scopes i live
