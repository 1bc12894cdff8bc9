-- ===== src/Cleaner/Overlap/Apart.antt =====
-- internal/cleaner/overlap_identity.go: what ambiguousAgentStateMayOverlap means by its answers.
use aibris.Prelude.{
  ◌≡◌, ◌≢◌, ap, ◌∙◌, Text, false, ||-false, some, ◌⊎◌, inl, inr, text_eq, text_eq_iff, arith,
  Bool-cases, Option-cases,
}
use aibris.FilePath.{clean, is_abs, path_contains}
use aibris.Cleaner.Items.{FileSystem, trim_space}
use aibris.Cleaner.Overlap.{PathIdentity}
use aibris.Cleaner.Overlap.Identity.{
  canonical_overlap_relation, is_related, relates_to_either, ambiguous_may_overlap, disjoint,
  resolve_within, link_limit,
}

-- Two paths, neither of which is the other or lies below it.
abbrev pub Unrelated : Text → Text → Type 0
Unrelated target other =
    (target ≢ other) × (path_contains other target ≡ false) × (path_contains target other ≡ false)

canonical_overlap_relation-Unrelated :
    (target other : Text)
    → is_related (canonical_overlap_relation target other) ≡ false
    → Unrelated target other
unfolding canonical_overlap_relation
canonical_overlap_relation-Unrelated target other h =
    (λ e. let same = (text_eq_iff target other).1 e in ground arith, ground arith, ground arith)

relates_to_either-Unrelated :
    (target : PathIdentity) (other : Text)
    → relates_to_either target other ≡ false
    → Unrelated target.raw other × Unrelated target.canonical other
unfolding relates_to_either
relates_to_either-Unrelated target other h =
    let (raw, canonical) =
      ||-false (is_related (canonical_overlap_relation target.raw other))
        (is_related (canonical_overlap_relation target.canonical other)) h in
    (
      canonical_overlap_relation-Unrelated target.raw other raw,
      canonical_overlap_relation-Unrelated target.canonical other canonical,
    )

-- The answer that there is no overlap.
pub ambiguous_may_overlap-disjoint :
    (fs : FileSystem) (target : PathIdentity) (path : Text)
    → ambiguous_may_overlap fs link_limit target path ≡ disjoint
    → (is_abs (clean (trim_space path)) ≡ false)
      ⊎ ((resolved : Text) × (resolve_within fs link_limit (clean (trim_space path))
            ≡ some resolved)
          × Unrelated target.raw (clean (trim_space path))
          × Unrelated target.canonical (clean (trim_space path))
          × Unrelated target.raw resolved
          × Unrelated target.canonical resolved)
unfolding ambiguous_may_overlap
ambiguous_may_overlap-disjoint fs target path h =
    let raw = clean (trim_space path) in
    elim (Bool-cases (is_abs raw)) [
      | inr e ↦ inl e
      | inl e ↦ elim (Option-cases (resolve_within fs link_limit raw)) [
        | inl n ↦ absurd (ground arith)
        | inr (resolved, n) ↦
            let written : relates_to_either target raw ≡ false = ground arith in
            let apart : relates_to_either target resolved ≡ false =
              elim (Bool-cases (text_eq resolved raw)) [
                | inl same ↦
                    ap (relates_to_either target) ((text_eq_iff resolved raw).0 same) ∙ written
                | inr other ↦ ground arith
              ] in
            let (a, b) = relates_to_either-Unrelated target raw written in
            let (c, d) = relates_to_either-Unrelated target resolved apart in
            inr (resolved, n, a, b, c, d)
      ]
    ]
