-- ===== src/Exclude/Induction.antt =====
-- internal/exclude/exclude.go: what every step of add preserves holds after it.
use aibris.Prelude.{
  ◌≡◌, refl, Text, List, [], ◌∷◌, Bool, true, false, inl, inr, Option, none, some, Option-cases,
  if_either, any_of,
}
use aibris.Exclude.{
  ExcludeSource, RejectReason, outside_scan_roots, invalid_glob_pattern, Matcher, System, in_root,
  canonicalize, scope_within_roots, existing_literal_scope, contains_dot_dot_segment, add_scope,
  reject, same_scope, add_literal, expand_pattern,
}
use aibris.Exclude.Patterns.{
  Pass, goes_on, returns, has_glob_bytes, add_scope_or_keep, add_literal_or_keep, add_matches,
  without_glob, add_globbed, add_candidate, add_candidates, add,
}

-- Every scope that is found lies in a root.
abbrev pub IfInRoots : List Text → Option Text → Type 0
IfInRoots roots found = (r : Text) → found ≡ some r → any_of (in_root r) roots ≡ true

pub scope_within_roots-IfInRoots :
    (system : System) (path : Text) (roots : List Text)
    → IfInRoots roots (scope_within_roots system path roots)
unfolding scope_within_roots
scope_within_roots-IfInRoots system path roots =
    if_either (IfInRoots roots) (any_of (in_root (canonicalize system path)) roots)
      (some (canonicalize system path)) none (λ e r q. some_at e r q) (λ e r q. cc)
  where
    some_at :
        any_of (in_root (canonicalize system path)) roots ≡ true
        → IfInRoots roots (some (canonicalize system path))
    some_at e r q = cc

existing_literal_scope-IfInRoots :
    (system : System) (path : Text) (roots : List Text)
    → IfInRoots roots (existing_literal_scope system path roots)
unfolding existing_literal_scope
existing_literal_scope-IfInRoots system path roots =
    if_either (IfInRoots roots) (system.exists path) (scope_within_roots system path roots) none
      (λ e. scope_within_roots-IfInRoots system path roots) (λ e r q. cc)

-- `P` tells whether a scope was added; `R` holds of what add leaves.
pub record Steps (raw : Text) (source : ExcludeSource) (roots : List Text)
    (P : Bool → Matcher → Type 0) (R : Matcher → Type 0) : Type 0 where
  pub scoped :
      (added : Bool) (m : Matcher) (r : Text)
      → contains_dot_dot_segment raw ≡ false
      → any_of (in_root r) roots ≡ true
      → P added m
      → P true (add_scope raw r source m)
  pub known :
      (added : Bool) (m : Matcher) (r : Text)
      → any_of (same_scope raw r source) m.scopes ≡ true
      → P added m
      → P true m
  pub rejected :
      (added : Bool) (m : Matcher) (reason : RejectReason)
      → P added m
      → R (reject raw source reason m)
  pub done : (m : Matcher) → P true m → R m

module _ (system : System) (raw : Text) (source : ExcludeSource) (roots : List Text)
    (P : Bool → Matcher → Type 0) (R : Matcher → Type 0) (steps : Steps raw source roots P R) where
  abbrev OfPass : Pass → Type 0
  OfPass (goes_on added m) = P added m
  OfPass (returns m) = R m

  module _ (plain : contains_dot_dot_segment raw ≡ false) where
    literal-P :
        (added : Bool) (m : Matcher) (r : Text)
        → any_of (in_root r) roots ≡ true
        → P added m
        → P true (add_literal raw r source m)
    unfolding add_literal
    literal-P added m r i p =
        if_either (P true) (any_of (same_scope raw r source) m.scopes) _ _
          (λ e. steps.known added m r e p) (λ e. steps.scoped added m r plain i p)

    scope_or_keep-P :
        (found : Option Text) (added : Bool) (m : Matcher)
        → IfInRoots roots found
        → P added m
        → OfPass (add_scope_or_keep system raw source roots found added m)
    scope_or_keep-P none added m i p = p
    scope_or_keep-P (some r) added m i p = steps.scoped added m r plain (i r refl) p

    literal_or_keep-P :
        (found : Option Text) (pass : Pass)
        → IfInRoots roots found
        → OfPass pass
        → OfPass (add_literal_or_keep system raw source roots found pass)
    literal_or_keep-P found (returns m) i p = p
    literal_or_keep-P none (goes_on added m) i p = p
    literal_or_keep-P (some r) (goes_on added m) i p = literal-P added m r (i r refl) p

    matches-P :
        (paths : List Text) (added : Bool) (m : Matcher)
        → P added m
        → OfPass (add_matches system raw source roots paths added m)
    unfolding add_matches
    matches-P [] added m p = p
    matches-P (path ∷ paths) added m p =
        elim (Option-cases (scope_within_roots system path roots)) [
          | inl n ↦ rw (n, add_matches) (matches-P paths added m p)
          | inr (r, q) ↦
              rw (q, add_matches)
                (matches-P paths true (add_scope raw r source m) (
                  steps.scoped added m r plain (scope_within_roots-IfInRoots system path roots r q)
                    p))
        ]

    without_glob-P :
        (literal : Option Text) (added : Bool) (m : Matcher)
        → IfInRoots roots literal
        → P added m
        → OfPass (without_glob system raw source roots literal m)
    without_glob-P none added m i p = steps.rejected added m invalid_glob_pattern p
    without_glob-P (some r) added m i p = literal-P added m r (i r refl) p

    globbed-P :
        (paths : Option (List Text)) (literal : Option Text) (added : Bool) (m : Matcher)
        → IfInRoots roots literal
        → P added m
        → OfPass (add_globbed system raw source roots paths literal added m)
    globbed-P none literal added m i p = without_glob-P literal added m i p
    globbed-P (some paths) literal added m i p =
        literal_or_keep-P literal (add_matches system raw source roots paths added m) i
          (matches-P paths added m p)

    candidate-P :
        (candidate : Text) (added : Bool) (m : Matcher)
        → P added m
        → OfPass (add_candidate system raw source roots candidate added m)
    unfolding add_candidate
    candidate-P candidate added m p =
        if_either OfPass (has_glob_bytes candidate) _ _
          (λ e.
            globbed-P (system.glob candidate) (existing_literal_scope system candidate roots) added
              m (existing_literal_scope-IfInRoots system candidate roots) p)
          (λ e.
            scope_or_keep-P (scope_within_roots system candidate roots) added m
              (scope_within_roots-IfInRoots system candidate roots) p)

    candidates-R :
        (candidates : List Text) (added : Bool) (m : Matcher)
        → P added m
        → R (add_candidates system raw source roots candidates added m)
    unfolding add_candidates
    candidates-R [] true m p = steps.done m p
    candidates-R [] false m p = steps.rejected false m outside_scan_roots p
    candidates-R (candidate ∷ candidates) added m p =
        after (candidates-R candidates) (add_candidate system raw source roots candidate added m)
          (candidate-P candidate added m p)
      where
        after :
            ((a : Bool) (n : Matcher)
              → P a n
              → R (add_candidates system raw source roots candidates a n))
            → (pass : Pass) → OfPass pass
            → R (elim pass [
              | returns m' ↦ m'
              | goes_on added' m' ↦ add_candidates system raw source roots candidates added' m'
            ])
        after rest (returns m') h = h
        after rest (goes_on added' m') h = rest added' m' h

  pub add-R : (m : Matcher) → P false m → R (add system raw source roots m)
  unfolding add
  add-R m p =
      if_either R (contains_dot_dot_segment raw) _ _
        (λ e. steps.rejected false m outside_scan_roots p)
        (λ e. candidates-R e (expand_pattern raw system.home roots) false m p)
