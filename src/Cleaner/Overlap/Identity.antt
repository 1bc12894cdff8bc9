-- ===== src/Cleaner/Overlap/Identity.antt =====
-- internal/cleaner/overlap_identity.go: canonical identities, the relation of two canonical paths,
-- and the reading of a path that does not resolve. Case folding on Windows is left out.
use aibris.Prelude.{
  ℕ, zero, suc, ◌+◌, ◌==◌, Text, List, [], ◌∷◌, Bool, true, false, ◌&&◌, ◌||◌, not, Option, none,
  some, ◌⊎◌, inl, inr, if◌then◌else◌, text_eq, is_empty, length,
}
use aibris.FilePath.{clean, is_abs, dir, base, join, path_contains}
use aibris.Cleaner.Items.{FileSystem, symlink, other_leaf, missing, unreadable, trim_space}
use aibris.Cleaner.Overlap.{PathIdentity, IdentityError, OverlapSafetyRelation}

-- An identity, or why there is none.
abbrev pub IdentityResult : Type 0
IdentityResult = PathIdentity ⊎ IdentityError

-- canonicalExistingPathIdentity
unfoldable pub canonical_existing_path_identity : FileSystem → Text → IdentityResult
canonical_existing_path_identity fs path =
    let trimmed = trim_space path in
    let raw = clean trimmed in
    if is_empty trimmed || not (is_abs trimmed)
    then inr IdentityError.not_absolute
    else elim (fs.eval_symlinks raw) [
      | none ↦ inr (IdentityError.unresolved raw)
      | some resolved ↦ elim (fs.stat (clean resolved)) [
        | none ↦ inr (IdentityError.unreadable (clean resolved))
        | some file ↦ inl (record { raw = raw; canonical = clean resolved; info = some file })
      ]
    ]

abbrev same_file : Option ℕ → Option ℕ → Bool
same_file none other = false
same_file (some a) none = false
same_file (some a) (some b) = a == b

-- canonicalPathIdentity.matches: true where it returns no error.
unfoldable pub identity_matches : PathIdentity → PathIdentity → Bool
identity_matches identity current =
    text_eq identity.canonical current.canonical && same_file identity.info current.info

-- canonicalPathIdentity.unchanged
unfoldable pub identity_unchanged : FileSystem → PathIdentity → Bool
identity_unchanged fs identity = elim (canonical_existing_path_identity fs identity.raw) [
  | inr error ↦ false
  | inl current ↦ identity_matches identity current
]

-- canonicalOverlapRelation; `none` is its false.
unfoldable pub canonical_overlap_relation : Text → Text → Option OverlapSafetyRelation
canonical_overlap_relation target agent_state =
    if text_eq target agent_state
    then some OverlapSafetyRelation.exact
    else if path_contains agent_state target
    then some OverlapSafetyRelation.agent_state_ancestor
    else if path_contains target agent_state
    then some OverlapSafetyRelation.agent_state_descendant
    else none

abbrev pub is_related : Option OverlapSafetyRelation → Bool
is_related none = false
is_related (some relation) = true

unfoldable pub join_all : Text → List Text → Text
join_all current [] = clean current
join_all current (part ∷ suffix) = join_all (join current part) suffix

-- The loop of resolvePathWithUnresolvedSuffix over the ancestors of a path, with the call for the
-- target of a link given. A path has fewer ancestors than bytes, so its length is fuel enough.
unfoldable pub walk_up : FileSystem → (Text → Option Text) → ℕ → Text → List Text → Option Text
walk_up fs follow zero current suffix = none
walk_up fs follow (suc fuel) current suffix =
    let up = walk_up fs follow fuel (dir current) (base current ∷ suffix) in
    elim (fs.lstat current) [
      | symlink ↦ elim (fs.readlink current) [
        | none ↦ none
        | some link ↦ elim (follow (if is_abs link then link else join (dir current) link)) [
          | none ↦ none
          | some resolved ↦ some (join_all resolved suffix)
        ]
      ]
      | other_leaf ↦ elim (fs.eval_symlinks current) [
        | none ↦ none
        | some resolved ↦ some (join_all resolved suffix)
      ]
      | missing ↦ if text_eq (dir current) current then none else up
      | unreadable ↦ none
    ]

-- resolvePathWithUnresolvedSuffix, with the number of links that may still be followed.
unfoldable pub resolve_within : FileSystem → ℕ → Text → Option Text
resolve_within fs zero path = none
resolve_within fs (suc links) path =
    walk_up fs (resolve_within fs links) (length (clean path) + 1) (clean path) []

-- The source refuses a depth above 255, so 256 calls may nest.
abbrev pub link_limit : ℕ
link_limit = 256

-- The answer of ambiguousAgentStateMayOverlap.
pub data MayOverlap : Type 0 where
  overlaps disjoint unresolvable : MayOverlap

unfoldable pub relates_to_either : PathIdentity → Text → Bool
relates_to_either target agent_state =
    is_related (canonical_overlap_relation target.raw agent_state)
    || is_related (canonical_overlap_relation target.canonical agent_state)

-- ambiguousAgentStateMayOverlap, with the limit on links as an argument.
unfoldable pub ambiguous_may_overlap : FileSystem → ℕ → PathIdentity → Text → MayOverlap
ambiguous_may_overlap fs links target agent_state_path =
    let raw = clean (trim_space agent_state_path) in
    if not (is_abs raw)
    then disjoint
    else if relates_to_either target raw
    then overlaps
    else elim (resolve_within fs links raw) [
      | none ↦ unresolvable
      | some resolved ↦
          if text_eq resolved raw
          then disjoint
          else if relates_to_either target resolved
          then overlaps
          else disjoint
    ]
