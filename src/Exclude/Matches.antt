-- ===== src/Exclude/Matches.antt =====
-- internal/exclude/exclude.go: Match and ProtectMatch.
use aibris.Prelude.{
  ℕ, suc, ◌+◌, ◌≡◌, refl, sym, ap, ◌∙◌, Text, List, [], ◌∷◌, map, Bool, true, false, ◌&&◌, ◌||◌,
  Bool-cases, if◌then◌else◌, any_of, any_of-In, In-any_of, Option, none, some, inl, inr, text_eq,
  arith,
}
use aibris.FilePath.{clean, is_within}
use aibris.Exclude.{ExcludedScope, Matcher, System, canonicalize}

-- canonicalCandidates
unfoldable pub canonical_candidates : System → Text → List Text
canonical_candidates system path =
    if text_eq (canonicalize system (clean path)) (clean path)
    then clean path ∷ []
    else clean path ∷ canonicalize system (clean path) ∷ []

-- The condition of the loops of match; `ancestor` lets the scope lie below the candidate.
abbrev pub covers : Bool → Text → Text → Bool
covers ancestor candidate resolved =
    text_eq candidate resolved
    || (is_within resolved candidate || (ancestor && is_within candidate resolved))

abbrev pub before_scope : ExcludedScope → Option (List ExcludedScope) → Option (List ExcludedScope)
before_scope scope none = none
before_scope scope (some scopes) = some (scope ∷ scopes)

-- The inner loop: the scopes, with the count of the first that covers the candidate raised.
unfoldable pub count_match : Bool → Text → List ExcludedScope → Option (List ExcludedScope)
count_match ancestor candidate [] = none
count_match ancestor candidate (scope ∷ scopes) =
    let rest = count_match ancestor candidate scopes in
    if covers ancestor candidate scope.resolved
    then some (record scope { count = suc scope.count } ∷ scopes)
    else before_scope scope rest

unfoldable pub match_candidates :
    Bool → List Text → List ExcludedScope → Option (List ExcludedScope)
match_candidates ancestor [] scopes = none
match_candidates ancestor (candidate ∷ candidates) scopes =
    elim (count_match ancestor candidate scopes) [
      | some counted ↦ some counted
      | none ↦ match_candidates ancestor candidates scopes
    ]

abbrev pub with_counts : Matcher → Option (List ExcludedScope) → Bool × Matcher
with_counts m none = (false, m)
with_counts m (some scopes) = (true, record m { scopes = scopes })

-- match; without a scope there is nothing to count.
unfoldable pub match_path : Bool → System → Matcher → Text → Bool × Matcher
match_path ancestor system m path =
    with_counts m (match_candidates ancestor (canonical_candidates system path) m.scopes)

-- Match
unfoldable pub match_hidden : System → Matcher → Text → Bool × Matcher
match_hidden = match_path false

-- ProtectMatch
unfoldable pub protect_match : System → Matcher → Text → Bool × Matcher
protect_match = match_path true

unfoldable pub total_count : List ExcludedScope → ℕ
total_count [] = 0
total_count (scope ∷ scopes) = scope.count + total_count scopes

-- Some scope covers one of the candidates.
abbrev pub is_covered : Bool → List Text → List ExcludedScope → Bool
is_covered ancestor candidates scopes =
    any_of (λ candidate. any_of (λ scope. covers ancestor candidate scope.resolved) scopes)
      candidates

abbrev pub resolved_of : List ExcludedScope → List Text
resolved_of scopes = map (λ scope. scope.resolved) scopes

-- The scopes are the same, and one count is raised by one.
abbrev pub Counted : Bool → List ExcludedScope → Option (List ExcludedScope) → Type 0
Counted hit scopes none = hit ≡ false
Counted hit scopes (some counted) =
    (hit ≡ true)
    × (total_count counted ≡ suc (total_count scopes))
    × (resolved_of counted ≡ resolved_of scopes)

module _ (ancestor : Bool) where
  before-Counted :
      (hit : Bool) (scope : ExcludedScope) (scopes : List ExcludedScope)
      (r : Option (List ExcludedScope))
      → Counted hit scopes r
      → Counted hit (scope ∷ scopes) (before_scope scope r)
  unfolding total_count
  before-Counted hit scope scopes none h = h
  before-Counted hit scope scopes (some counted) (found, n, e) =
      (found, omega (arith, n), ap (◌∷◌ scope.resolved) e)

  count_match-Counted :
      (candidate : Text) (scopes : List ExcludedScope)
      → Counted
          (any_of (λ scope. covers ancestor candidate scope.resolved) scopes)
          scopes
          (count_match ancestor candidate scopes)
  unfolding count_match any_of total_count
  count_match-Counted candidate [] = refl
  count_match-Counted candidate (scope ∷ scopes) =
      elim (Bool-cases (covers ancestor candidate scope.resolved)) [
        | inl e ↦ rw e (refl, omega arith, refl)
        | inr e ↦ rw e (
            before-Counted (any_of (λ s. covers ancestor candidate s.resolved) scopes) scope scopes
              (count_match ancestor candidate scopes) (count_match-Counted candidate scopes))
      ]

  match_candidates-Counted :
      (candidates : List Text) (scopes : List ExcludedScope)
      → Counted
          (is_covered ancestor candidates scopes)
          scopes
          (match_candidates ancestor candidates scopes)
  unfolding match_candidates any_of
  match_candidates-Counted [] scopes = refl
  match_candidates-Counted (candidate ∷ candidates) scopes =
      after (count_match ancestor candidate scopes) (count_match-Counted candidate scopes)
        (match_candidates-Counted candidates scopes)
    where
      after :
          (r : Option (List ExcludedScope))
          → Counted (any_of (λ scope. covers ancestor candidate scope.resolved) scopes) scopes r
          → Counted
              (is_covered ancestor candidates scopes)
              scopes
              (match_candidates ancestor candidates scopes)
          → Counted
              (any_of (λ scope. covers ancestor candidate scope.resolved) scopes
                || is_covered ancestor candidates scopes)
              scopes
              (elim r [
                | some counted ↦ some counted
                | none ↦ match_candidates ancestor candidates scopes
              ])
      after none h rest = rw h rest
      after (some counted) (found, n, e) rest = rw found (refl, n, e)

any_of_mono :
    {A : Type 0} (p q : A → Bool) (xs : List A)
    → ((a : A) → p a ≡ true → q a ≡ true)
    → any_of p xs ≡ true
    → any_of q xs ≡ true
any_of_mono p q xs weaker h = let (a, i, e) = any_of-In p xs h in In-any_of q xs a i (weaker a e)

covers-protect :
    (candidate resolved : Text)
    → covers false candidate resolved ≡ true
    → covers true candidate resolved ≡ true
covers-protect candidate resolved h = ground arith

module _ (system : System) (m : Matcher) (path : Text) where
  -- Match and ProtectMatch hold exactly if some scope covers the path as spelled or as resolved;
  -- then one count goes up by one, otherwise none changes, and scopes and rejections stay.
  pub match_path-counts :
      (ancestor : Bool)
      → ((match_path ancestor system m path).0
          ≡ is_covered ancestor (canonical_candidates system path) m.scopes)
        × (total_count (match_path ancestor system m path).1.scopes
            ≡ (if is_covered ancestor (canonical_candidates system path) m.scopes then 1 else 0)
              + total_count m.scopes)
        × (resolved_of (match_path ancestor system m path).1.scopes ≡ resolved_of m.scopes)
        × ((match_path ancestor system m path).1.rejected ≡ m.rejected)
  unfolding match_path
  match_path-counts ancestor =
      after (is_covered ancestor (canonical_candidates system path) m.scopes)
        (match_candidates ancestor (canonical_candidates system path) m.scopes)
        (match_candidates-Counted ancestor (canonical_candidates system path) m.scopes)
    where
      after :
          (hit : Bool) (r : Option (List ExcludedScope))
          → Counted hit m.scopes r
          → ((with_counts m r).0 ≡ hit)
            × (total_count (with_counts m r).1.scopes
                ≡ (if hit then 1 else 0) + total_count m.scopes)
            × (resolved_of (with_counts m r).1.scopes ≡ resolved_of m.scopes)
            × ((with_counts m r).1.rejected ≡ m.rejected)
      after hit none h = rw h (refl, omega arith, refl, refl)
      after hit (some counted) (h, n, e) = rw h (refl, omega (arith, n), e, refl)

  -- What Match hides, ProtectMatch protects.
  pub match_hidden-protect :
      (match_hidden system m path).0 ≡ true → (protect_match system m path).0 ≡ true
  unfolding match_hidden protect_match
  match_hidden-protect h =
      (match_path-counts true).0
      ∙ any_of_mono (λ candidate. any_of (λ scope. covers false candidate scope.resolved) m.scopes)
          (λ candidate. any_of (λ scope. covers true candidate scope.resolved) m.scopes)
          (canonical_candidates system path)
          (λ candidate.
            any_of_mono (λ scope. covers false candidate scope.resolved)
              (λ scope. covers true candidate scope.resolved) m.scopes
              (λ scope. covers-protect candidate scope.resolved))
          (sym (match_path-counts false).0 ∙ h)
