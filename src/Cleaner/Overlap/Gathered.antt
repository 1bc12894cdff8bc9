-- ===== src/Cleaner/Overlap/Gathered.antt =====
-- internal/cleaner/overlap_plan.go: the loop that gathers the obligations of matches.
use aibris.Prelude.{
  ◌≡◌, refl, sym, ap, ◌∙◌, subst, Text, List, [], ◌∷◌, ◌++◌, true, Option, some, ◌⊎◌, inl, inr,
  if_either, text_eq, text_eq_iff, text_eq_refl, In, arith, Option-cases, false≢true,
}
use aibris.Cleaner.Overlap.{OverlapSafetyMatch, AgentStateObligation}
use aibris.Cleaner.Overlap.Entries.{AgentStateEntry}
use aibris.Cleaner.Overlap.Component.{
  Lookup, lookup_agent_state_revalidator, same_entry, entry_for_match, obligation_key,
  obligation_for, set_obligation, gather_obligations,
}

-- Some obligation has the key.
abbrev pub HasObligation : Text → List AgentStateObligation → Type 0
HasObligation key obligations =
    (o : AgentStateObligation) × In o obligations × (obligation_key o ≡ key)

set_obligation-new :
    (o : AgentStateObligation) (os : List AgentStateObligation)
    → HasObligation (obligation_key o) (set_obligation o os)
unfolding set_obligation
set_obligation-new o [] = (o, inl refl, refl)
set_obligation-new o (x ∷ os) =
    if_either (HasObligation (obligation_key o)) (text_eq (obligation_key x) (obligation_key o)) _ _
      (λ e. (o, inl refl, refl))
      λ e. let (found, i, k) = set_obligation-new o os in (found, inr i, k)

set_obligation-old :
    (key : Text) (o : AgentStateObligation) (os : List AgentStateObligation)
    → HasObligation key os
    → HasObligation key (set_obligation o os)
unfolding set_obligation
set_obligation-old key o [] (found, i, k) = absurd i
set_obligation-old key o (x ∷ os) (found, inl q, k) =
    let k' : obligation_key x ≡ key = ap obligation_key (sym q) ∙ k in
    if_either (HasObligation key) (text_eq (obligation_key x) (obligation_key o)) _ _
      (λ e. (o, inl refl, sym ((text_eq_iff (obligation_key x) (obligation_key o)).0 e) ∙ k'))
      λ e. (x, inl refl, k')
set_obligation-old key o (x ∷ os) (found, inr i, k) =
    if_either (HasObligation key) (text_eq (obligation_key x) (obligation_key o)) _ _
      (λ e. (found, inr i, k))
      λ e. let (f, j, l) = set_obligation-old key o os (found, i, k) in (f, inr j, l)

same_entry_self :
    (entry : AgentStateEntry) (found : OverlapSafetyMatch)
    → found.item ≡ entry.item
    → same_entry entry found ≡ true
same_entry_self entry found e =
    rw e
      (rw (text_eq_refl entry.item.path, text_eq_refl entry.item.tool, text_eq_refl entry.item.id))

-- The entry that is found for the match of an entry, which has the same path.
abbrev pub FoundEntry : List AgentStateEntry → OverlapSafetyMatch → Option AgentStateEntry → Type 0
FoundEntry entries found result =
    (e : AgentStateEntry) × (result ≡ some e) × In e entries × (e.item.path ≡ found.item.path)

pub entry_for_match-found :
    (entries : List AgentStateEntry) (found : OverlapSafetyMatch) (entry : AgentStateEntry)
    → In entry entries
    → found.item ≡ entry.item
    → FoundEntry entries found (entry_for_match entries found)
unfolding entry_for_match
entry_for_match-found [] found entry i m = absurd i
entry_for_match-found (x ∷ entries) found entry i m =
    if_either (FoundEntry (x ∷ entries) found) (same_entry x found) _ _
      (λ t. (x, refl, inl refl, (text_eq_iff x.item.path found.item.path).0 (ground arith)))
      λ f. elim i [
        | inl q ↦ absurd (
            false≢true
              (sym f ∙ same_entry_self x found (m ∙ ap (λ (e : AgentStateEntry). e.item) q)))
        | inr j ↦
            let (e, r, k, p) = entry_for_match-found entries found entry j m in (e, r, inr k, p)
      ]

module _ {R : Type 0} (lookup : Lookup R) (entries : List AgentStateEntry) where
  inl_eq :
      (os result : List AgentStateObligation)
      → ◌≡◌ {A = List AgentStateObligation ⊎ OverlapSafetyMatch} (inl os) (inl result)
      → os ≡ result
  inl_eq os result e = cc

  -- The key is kept if the loop ends well.
  abbrev pub IfGathered : Text → List AgentStateObligation ⊎ OverlapSafetyMatch → Type 0
  IfGathered key r = (os : List AgentStateObligation) → r ≡ inl os → HasObligation key os

  gather-old :
      (key : Text) (os : List AgentStateObligation) (matches : List OverlapSafetyMatch)
      → HasObligation key os
      → IfGathered key (gather_obligations lookup entries os matches)
  unfolding gather_obligations
  gather-old key os [] h = λ result e. subst (HasObligation key) (inl_eq os result e) h
  gather-old key os (x ∷ matches) h = elim (Option-cases (entry_for_match entries x)) [
    | inl n ↦ rw (n, gather_obligations) (gather-old key os matches h)
    | inr (entry, n) ↦ elim (Option-cases (lookup_agent_state_revalidator lookup x.item.tool)) [
      | inl m ↦ rw (n, gather_obligations, m) (λ result e. cc)
      | inr (registration, m) ↦
          rw (n, gather_obligations, m)
            (gather-old key (set_obligation (obligation_for x entry registration) os) matches
              (set_obligation-old key (obligation_for x entry registration) os h))
    ]
  ]

  pub gather-new :
      (found : OverlapSafetyMatch) (entry : AgentStateEntry) (os : List AgentStateObligation)
      (matches : List OverlapSafetyMatch)
      → In found matches
      → entry_for_match entries found ≡ some entry
      → IfGathered
          (found.item.tool ++ (0 ∷ entry.identity.canonical))
          (gather_obligations lookup entries os matches)
  unfolding gather_obligations obligation_key
  gather-new found entry os [] i s = absurd i
  gather-new found entry os (x ∷ matches) (inl q) s =
      elim (Option-cases (lookup_agent_state_revalidator lookup x.item.tool)) [
        | inl m ↦
            rw (ap (entry_for_match entries) (sym q) ∙ s, gather_obligations, m) (λ result e. cc)
        | inr (registration, m) ↦
            rw (ap (entry_for_match entries) (sym q) ∙ s, gather_obligations, m, q)
              (gather-old (obligation_key (obligation_for x entry registration))
                (set_obligation (obligation_for x entry registration) os) matches
                (set_obligation-new (obligation_for x entry registration) os))
      ]
  gather-new found entry os (x ∷ matches) (inr j) s =
      elim (Option-cases (entry_for_match entries x)) [
        | inl n ↦ rw (n, gather_obligations) (gather-new found entry os matches j s)
        | inr (other, n) ↦ elim (Option-cases (lookup_agent_state_revalidator lookup x.item.tool)) [
          | inl m ↦ rw (n, gather_obligations, m) (λ result e. cc)
          | inr (registration, m) ↦
              rw (n, gather_obligations, m)
                (gather-new found entry (set_obligation (obligation_for x other registration) os)
                  matches j s)
        ]
      ]
