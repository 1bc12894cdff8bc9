-- ===== src/Cleaner/Overlap/Entries.antt =====
-- internal/cleaner/overlap_plan.go: the agent-state entries of the evidence. A context is the
-- sequence of what its Err method tells: true once it is cancelled; each call reads the next place.
use aibris.Prelude.{
  ℕ, suc, Text, List, [], ◌∷◌, ◌++◌, Bool, not, inl, inr, if◌then◌else◌, text_lt, sort,
}
use aibris.Types.{DebrisInfo, class_text, is_agent_state}
use aibris.Cleaner.Items.{FileSystem, join_nul}
use aibris.Cleaner.Overlap.{PathIdentity}
use aibris.Cleaner.Overlap.Identity.{canonical_existing_path_identity}

abbrev pub Context : Type 0
Context = ℕ → Bool

-- agentStateSafetyEntry
pub record AgentStateEntry : Type 0 where
  pub item : DebrisInfo
  pub identity : PathIdentity

-- agentStateItemStableKey and agentStateEntryStableKey
unfoldable pub item_stable_key : DebrisInfo → Text
item_stable_key item =
    join_nul (item.tool ∷ item.id ∷ item.path ∷ class_text item.classification ∷ [])

unfoldable pub entry_stable_key : AgentStateEntry → Text
entry_stable_key entry = entry.identity.canonical ++ (0 ∷ item_stable_key entry.item)

abbrev pub entry_before : AgentStateEntry → AgentStateEntry → Bool
entry_before a b = text_lt (entry_stable_key a) (entry_stable_key b)

abbrev pub item_before : DebrisInfo → DebrisInfo → Bool
item_before a b = text_lt (item_stable_key a) (item_stable_key b)

-- The entries, the ambiguous items, and how often the context has been read.
pub record Entries : Type 0 where
  pub entries : List AgentStateEntry
  pub ambiguous : List DebrisInfo
  pub reads : ℕ

-- One item of the loop, put before what the rest of the loop gives.
unfoldable pub add_entry : FileSystem → DebrisInfo → Entries → Entries
add_entry fs item rest = elim (canonical_existing_path_identity fs item.path) [
  | inr error ↦ record rest { ambiguous = item ∷ rest.ambiguous }
  | inl identity ↦ record rest {
    entries = record { item = item; identity = identity } ∷ rest.entries;
  }
]

-- The loop of canonicalAgentStateEntries, which stops when the context is cancelled.
unfoldable pub scan_entries : FileSystem → Context → ℕ → List DebrisInfo → Entries
scan_entries fs ctx reads [] = record { entries = []; ambiguous = []; reads = reads }
scan_entries fs ctx reads (item ∷ items) =
    let read = is_agent_state item.category in
    let rest = scan_entries fs ctx (if read then suc reads else reads) items in
    if not read
    then rest
    else if ctx reads
    then record { entries = []; ambiguous = []; reads = suc reads }
    else add_entry fs item rest

-- canonicalAgentStateEntries
unfoldable pub canonical_agent_state_entries : FileSystem → Context → ℕ → List DebrisInfo → Entries
canonical_agent_state_entries fs ctx reads items =
    let scanned = scan_entries fs ctx reads items in
    record scanned {
      entries = sort entry_before scanned.entries;
      ambiguous = sort item_before scanned.ambiguous;
    }
