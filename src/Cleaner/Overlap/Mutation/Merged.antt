-- ===== src/Cleaner/Overlap/Mutation/Merged.antt =====
-- internal/cleaner/overlap_mutation_helpers.go: merged obligations keep the provider of each key.
use aibris.Prelude.{
  ◌≡◌, refl, sym, ap, ◌∙◌, subst, Text, List, [], ◌∷◌, ◌++◌, true, false, none, some, ◌⊎◌, inl, inr,
  Bool-cases, text_eq, text_eq_iff, text_eq_refl, In, In-sort, sort, arith, Option-cases,
}
use aibris.Cleaner.Overlap.{AgentStateObligation}
use aibris.Cleaner.Overlap.Component.{obligation_key, obligation_before, set_obligation}
use aibris.Cleaner.Overlap.Mutation.Merge.{
  obligation_at, other_provider, merge_into, sorted_obligations, merged_obligations,
}

-- The map has the key, with the provider.
abbrev AtKey : Text → Text → List AgentStateObligation → Type 0
AtKey key provider merged =
    (o : AgentStateObligation) × (obligation_at key merged ≡ some o) × (o.provider_id ≡ provider)

set_obligation-at :
    (o : AgentStateObligation) (merged : List AgentStateObligation)
    → obligation_at (obligation_key o) (set_obligation o merged) ≡ some o
unfolding set_obligation obligation_at
set_obligation-at o [] = rw (text_eq_refl (obligation_key o)) refl
set_obligation-at o (x ∷ merged) =
    elim (Bool-cases (text_eq (obligation_key x) (obligation_key o))) [
      | inl e ↦ rw e (unfold obligation_at in rw (text_eq_refl (obligation_key o)) refl)
      | inr e ↦ rw e (unfold obligation_at in rw e (set_obligation-at o merged))
    ]

different-key :
    (a b : Text) (key : Text) → text_eq a key ≡ false → text_eq b a ≡ true → text_eq b key ≡ false
different-key a b key e h = subst (λ t. text_eq t key ≡ false) (sym ((text_eq_iff b a).0 h)) e

set_obligation-other :
    (o : AgentStateObligation) (key : Text) (merged : List AgentStateObligation)
    → text_eq (obligation_key o) key ≡ false
    → obligation_at key (set_obligation o merged) ≡ obligation_at key merged
unfolding set_obligation obligation_at
set_obligation-other o key [] e = rw e refl
set_obligation-other o key (x ∷ merged) e =
    elim (Bool-cases (text_eq (obligation_key x) (obligation_key o))) [
      | inl h ↦ rw h (
          unfold obligation_at in
          rw e (rw (different-key (obligation_key o) (obligation_key x) key e h) refl))
      | inr h ↦ rw h (unfold obligation_at in (rw (set_obligation-other o key merged e) refl))
    ]

same_provider :
    (o existing : AgentStateObligation)
    → other_provider o (some existing) ≡ none
    → existing.provider_id ≡ o.provider_id
same_provider o existing h = (text_eq_iff existing.provider_id o.provider_id).0 (ground arith)

module _ (key provider : Text) where
  keeps-AtKey :
      (o : AgentStateObligation) (merged : List AgentStateObligation)
      → AtKey key provider merged
      → other_provider o (obligation_at (obligation_key o) merged) ≡ none
      → AtKey key provider (set_obligation o merged)
  keeps-AtKey o merged (x, at, p) agrees = elim (Bool-cases (text_eq (obligation_key o) key)) [
    | inr e ↦ (x, set_obligation-other o key merged e ∙ at, p)
    | inl e ↦
        let k = (text_eq_iff (obligation_key o) key).0 e in
        (
          o,
          subst (λ t. obligation_at t (set_obligation o merged) ≡ some o) k
              (set_obligation-at o merged),
          sym (
                same_provider o x (
                  sym (
                    ap (other_provider o) (subst (λ t. obligation_at t merged ≡ some x) (sym k) at))
                  ∙ agrees))
              ∙ p,
        )
  ]

  inl_eq :
      (a b : List AgentStateObligation)
      → ◌≡◌ {A = List AgentStateObligation ⊎ (Text × Text)} (inl a) (inl b)
      → a ≡ b
  inl_eq a b e = cc

  abbrev IfMerged : List AgentStateObligation ⊎ (Text × Text) → Type 0
  IfMerged r = (result : List AgentStateObligation) → r ≡ inl result → AtKey key provider result

  merge_into-keeps :
      (merged obligations : List AgentStateObligation)
      → AtKey key provider merged
      → IfMerged (merge_into merged obligations)
  unfolding merge_into
  merge_into-keeps merged [] h = λ result e. subst (AtKey key provider) (inl_eq merged result e) h
  merge_into-keeps merged (o ∷ obligations) h =
      elim (Option-cases (other_provider o (obligation_at (obligation_key o) merged))) [
        | inl n ↦
            rw (n, merge_into)
              (merge_into-keeps (set_obligation o merged) obligations (keeps-AtKey o merged h n))
        | inr (existing, n) ↦ rw (n, merge_into) (λ result e. cc)
      ]

module _ (o : AgentStateObligation) where
  merge_into-has :
      (merged obligations : List AgentStateObligation)
      → In o obligations
      → IfMerged (obligation_key o) o.provider_id (merge_into merged obligations)
  unfolding merge_into
  merge_into-has merged [] i = absurd i
  merge_into-has merged (x ∷ obligations) i =
      elim (Option-cases (other_provider x (obligation_at (obligation_key x) merged))) [
        | inr (existing, n) ↦ rw (n, merge_into) (λ result e. cc)
        | inl n ↦
            rw (n, merge_into)
              (elim i [
                | inr j ↦ merge_into-has (set_obligation x merged) obligations j
                | inl q ↦
                    merge_into-keeps (obligation_key o) o.provider_id (set_obligation x merged)
                      obligations
                      (
                        x,
                        subst
                            (λ y.
                              obligation_at (obligation_key y) (set_obligation x merged) ≡ some x)
                            (sym q) (set_obligation-at x merged),
                        ap (λ (y : AgentStateObligation). y.provider_id) (sym q),
                      )
              ])
      ]

obligation_at-In :
    (key : Text) (merged : List AgentStateObligation) (o : AgentStateObligation)
    → obligation_at key merged ≡ some o
    → In o merged × (obligation_key o ≡ key)
unfolding obligation_at
obligation_at-In key [] o h = cc
obligation_at-In key (x ∷ merged) o h = elim (Bool-cases (text_eq (obligation_key x) key)) [
  | inl e ↦
      let same : x ≡ o = some_eq x o (rw e at h) in
      (inl (sym same), ap obligation_key (sym same) ∙ (text_eq_iff (obligation_key x) key).0 e)
  | inr e ↦ let (i, k) = obligation_at-In key merged o (rw e at h) in (inr i, k)
]
  where
    some_eq : (a b : AgentStateObligation) → some a ≡ some b → a ≡ b
    some_eq a b q = cc

-- Some obligation has the key and the provider.
abbrev pub HasProvider : Text → Text → List AgentStateObligation → Type 0
HasProvider key provider obligations =
    (o : AgentStateObligation) × In o obligations
    × (obligation_key o ≡ key)
    × (o.provider_id ≡ provider)

-- Merged obligations answer for each planned and each refreshed one: some obligation has its key,
-- and its provider.
pub merged_obligations-HasProvider :
    (planned current result : List AgentStateObligation)
    → merged_obligations planned current ≡ inl result
    → (o : AgentStateObligation) → In o (planned ++ current)
    → HasProvider (obligation_key o) o.provider_id result
unfolding merged_obligations
merged_obligations-HasProvider planned current result h o i =
    after (merge_into [] (planned ++ current)) (merge_into-has o [] (planned ++ current) i) h
  where
    after :
        (r : List AgentStateObligation ⊎ (Text × Text))
        → IfMerged (obligation_key o) o.provider_id r
        → sorted_obligations r ≡ inl result
        → HasProvider (obligation_key o) o.provider_id result
    after (inr providers) f e = cc
    after (inl merged) f e =
        let (x, at, p) = f merged refl in
        let (j, k) = obligation_at-In (obligation_key o) merged x at in
        let same : sort obligation_before merged ≡ result = cc in
        (x, subst (In x) same (In-sort obligation_before merged x j), k, p)
