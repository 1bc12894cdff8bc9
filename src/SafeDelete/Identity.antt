-- ===== src/SafeDelete/Identity.antt =====
-- internal/safedelete/safedelete.go: coversProtected, existingPathIdentity and
-- coversProtectedIdentity.
use aibris.Prelude.{
  ℕ, zero, suc, Text, [], ◌∷◌, ◌++◌, Bool, true, false, ◌&&◌, ◌||◌, Option, none, some,
  if◌then◌else◌, text_eq, is_empty, has_prefix, length, ◌==◌, Result, ok, err,
}
use aibris.FilePath.{sep, dir, base, join}
use aibris.SafeDelete.{found, absent, failed, Disk, Refusal, fold_case}

-- coversProtected
unfoldable pub covers_protected : Text → Text → Bool
covers_protected target protected =
    text_eq target protected || has_prefix protected (target ++ sep ∷ [])

-- The loop from a path up through its ancestors, with the tail of names left behind; it stops where
-- `visit` answers. A path has fewer ancestors than bytes, which are the fuel that its callers give.
unfoldable pub climb : {A : Type 0} → ℕ → (Text → Text → Option A) → Text → Text → Option A
climb zero visit current tail = none
climb (suc fuel) visit current tail =
    let rest = climb fuel visit (dir current) (join (base current) tail) in
    elim (visit current tail) [
      | some a ↦ some a
      | none ↦ if text_eq (dir current) current then none else rest
    ]

abbrev pub climb_from : {A : Type 0} → (Text → Text → Option A) → Text → Option A
climb_from visit path = climb (suc (length path)) visit path []

abbrev pub visit_existing : Disk → Text → Text → Option (Result Refusal (ℕ × Text))
visit_existing disk current tail = elim (disk.stat current) [
  | found file ↦ some (ok (file, tail))
  | absent ↦ none
  | failed ↦ some (err Refusal.identity_unavailable)
]

abbrev pub or_no_ancestor : {A : Type 0} → Option (Result Refusal A) → Result Refusal A
or_no_ancestor none = err Refusal.no_ancestor
or_no_ancestor (some r) = r

-- existingPathIdentity
unfoldable pub existing_path_identity : Disk → Text → Result Refusal (ℕ × Text)
existing_path_identity disk path = or_no_ancestor (climb_from (visit_existing disk) path)

abbrev pub visit_protected : Disk → ℕ → Text → Text → Text → Option (Result Refusal Bool)
visit_protected disk candidate candidate_tail current tail = elim (disk.stat current) [
  | found file ↦
      if candidate == file
        && (is_empty candidate_tail
            || covers_protected (fold_case disk candidate_tail) (fold_case disk tail))
      then some (ok true)
      else none
  | absent ↦ none
  | failed ↦ some (err Refusal.identity_unavailable)
]

abbrev pub or_uncovered : Option (Result Refusal Bool) → Result Refusal Bool
or_uncovered none = ok false
or_uncovered (some r) = r

-- coversProtectedIdentity
unfoldable pub covers_protected_identity : Disk → ℕ → Text → Text → Result Refusal Bool
covers_protected_identity disk candidate candidate_tail location =
    or_uncovered (climb_from (visit_protected disk candidate candidate_tail) location)
