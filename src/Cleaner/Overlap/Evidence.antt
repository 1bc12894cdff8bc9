-- ===== src/Cleaner/Overlap/Evidence.antt =====
-- The entries that the evidence yields: each holds its own identity, and none is left out unless the
-- context was cancelled on the way.
use aibris.Prelude.{
  ℕ, suc, ◌≡◌, refl, sym, ap, ◌∙◌, subst, Text, List, [], ◌∷◌, true, false, not, ◌⊎◌, inl, inr,
  if◌then◌else◌, if_either, In, All, In-sort, All-sort, arith, false≢true,
}
use aibris.Types.{DebrisInfo, is_agent_state}
use aibris.Cleaner.Items.{FileSystem}
use aibris.Cleaner.Overlap.{PathIdentity, IdentityError}
use aibris.Cleaner.Overlap.Identity.{canonical_existing_path_identity}
use aibris.Cleaner.Overlap.Entries.{
  Context, AgentStateEntry, Entries, entry_before, item_before, add_entry, scan_entries,
  canonical_agent_state_entries,
}

-- A cancelled context stays cancelled.
abbrev pub StaysCancelled : Context → Type 0
StaysCancelled ctx = (i : ℕ) → ctx i ≡ true → ctx (suc i) ≡ true

-- The entry of an item with its identity.
abbrev pub entry_of : DebrisInfo → PathIdentity → AgentStateEntry
entry_of item identity = record { item = item; identity = identity }

module _ (fs : FileSystem) where
  -- An entry holds the identity of its own path.
  abbrev pub Identified : AgentStateEntry → Type 0
  Identified e = canonical_existing_path_identity fs e.item.path ≡ inl e.identity

  pub Result-cases :
      (p : Text)
      → ((identity : PathIdentity) × (canonical_existing_path_identity fs p ≡ inl identity))
        ⊎ ((error : IdentityError) × (canonical_existing_path_identity fs p ≡ inr error))
  Result-cases p = go (canonical_existing_path_identity fs p) refl
    where
      go :
          (r : PathIdentity ⊎ IdentityError)
          → canonical_existing_path_identity fs p ≡ r
          → ((identity : PathIdentity) × (canonical_existing_path_identity fs p ≡ inl identity))
            ⊎ ((error : IdentityError) × (canonical_existing_path_identity fs p ≡ inr error))
      go (inl identity) e = inl (identity, e)
      go (inr error) e = inr (error, e)

  abbrev next_read : ℕ → DebrisInfo → ℕ
  next_read n item = if is_agent_state item.category then suc n else n

  module _ (ctx : Context) where
    abbrev AllIdentified : Entries → Type 0
    AllIdentified found = All Identified found.entries

    add_entry-Identified :
        (item : DebrisInfo) (rest : Entries)
        → AllIdentified rest
        → AllIdentified (add_entry fs item rest)
    unfolding add_entry
    add_entry-Identified item rest h = elim (Result-cases item.path) [
      | inl (identity, q) ↦ rw (q, add_entry) (q, h)
      | inr (error, q) ↦ rw (q, add_entry) h
    ]

    scan_entries-Identified :
        (n : ℕ) (items : List DebrisInfo) → AllIdentified (scan_entries fs ctx n items)
    unfolding scan_entries
    scan_entries-Identified n [] = tt
    scan_entries-Identified n (x ∷ items) =
        let rest = scan_entries-Identified (next_read n x) items in
        if_either AllIdentified (not (is_agent_state x.category)) _ _ (λ e. rest)
          λ e. if_either AllIdentified (ctx n) _ _ (λ c. tt) λ c. add_entry-Identified x _ rest

    -- The loop went on to its end, with the fact about what it found.
    abbrev IfLive : (Entries → Type 0) → Entries → Type 0
    IfLive P found = ctx found.reads ≡ false → P found

    -- If the context is not cancelled after the loop, what holds of one item's place holds of all.
    module _ (stays : StaysCancelled ctx) (item : DebrisInfo)
        (agent : is_agent_state item.category ≡ true) (P : Entries → Type 0)
        (here : (rest : Entries) → P (add_entry fs item rest))
        (there : (x : DebrisInfo) (rest : Entries) → P rest → P (add_entry fs x rest)) where
      add_entry-reads : (x : DebrisInfo) (rest : Entries) → (add_entry fs x rest).reads ≡ rest.reads
      unfolding add_entry
      add_entry-reads x rest = ground arith

      scan_entries-reaches :
          (n : ℕ) (items : List DebrisInfo) → In item items → IfLive P (scan_entries fs ctx n items)
      unfolding scan_entries
      scan_entries-reaches n [] i = absurd i
      scan_entries-reaches n (x ∷ items) (inl q) =
          let agent' : is_agent_state x.category ≡ true =
            ap (λ (t : DebrisInfo). is_agent_state t.category) (sym q) ∙ agent in
          if_either (IfLive P) (not (is_agent_state x.category)) _ _
            (λ e. absurd (false≢true (ap not (sym agent') ∙ e)))
            λ e.
              if_either (IfLive P) (ctx n) _ _
                (λ c live. absurd (false≢true (sym live ∙ stays n c)))
                λ c live.
                  subst
                    (λ (t : DebrisInfo).
                      P (add_entry fs t (scan_entries fs ctx (next_read n x) items)))
                    q (here (scan_entries fs ctx (next_read n x) items))
      scan_entries-reaches n (x ∷ items) (inr j) =
          let rest = scan_entries-reaches (next_read n x) items j in
          if_either (IfLive P) (not (is_agent_state x.category)) _ _ (λ e. rest)
            λ e.
              if_either (IfLive P) (ctx n) _ _
                (λ c live. absurd (false≢true (sym live ∙ stays n c)))
                λ c live. there x _ (rest (ap ctx (sym (add_entry-reads x _)) ∙ live))

    module _ (stays : StaysCancelled ctx) (items : List DebrisInfo)
        (live : ctx (canonical_agent_state_entries fs ctx 1 items).reads ≡ false)
        (item : DebrisInfo) (listed : In item items)
        (agent : is_agent_state item.category ≡ true) where
      pub entries_complete :
          (identity : PathIdentity)
          → canonical_existing_path_identity fs item.path ≡ inl identity
          → In (entry_of item identity) (canonical_agent_state_entries fs ctx 1 items).entries
      unfolding canonical_agent_state_entries
      entries_complete identity q =
          In-sort entry_before (scan_entries fs ctx 1 items).entries (entry_of item identity) (
            scan_entries-reaches stays item agent
              (λ found. In (entry_of item identity) found.entries)
              (λ rest. unfold add_entry in rw (q, add_entry) (inl refl))
              (λ x rest h. elim (Result-cases x.path) [
                | inl (other, r) ↦ unfold add_entry in rw (r, add_entry) (inr h)
                | inr (error, r) ↦ unfold add_entry in rw (r, add_entry) h
              ])
              1 items listed live)

      pub ambiguous_complete :
          (error : IdentityError)
          → canonical_existing_path_identity fs item.path ≡ inr error
          → In item (canonical_agent_state_entries fs ctx 1 items).ambiguous
      unfolding canonical_agent_state_entries
      ambiguous_complete error q =
          In-sort item_before (scan_entries fs ctx 1 items).ambiguous item (
            scan_entries-reaches stays item agent (λ found. In item found.ambiguous)
              (λ rest. unfold add_entry in rw (q, add_entry) (inl refl))
              (λ x rest h. elim (Result-cases x.path) [
                | inl (other, r) ↦ unfold add_entry in rw (r, add_entry) h
                | inr (e, r) ↦ unfold add_entry in rw (r, add_entry) (inr h)
              ])
              1 items listed live)

    pub entries-Identified :
        (items : List DebrisInfo)
        → All Identified (canonical_agent_state_entries fs ctx 1 items).entries
    unfolding canonical_agent_state_entries
    entries-Identified items =
        All-sort entry_before Identified (scan_entries fs ctx 1 items).entries
          (scan_entries-Identified 1 items)
