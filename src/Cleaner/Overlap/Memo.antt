-- ===== src/Cleaner/Overlap/Memo.antt =====
-- internal/cleaner/overlap_runtime.go: RefreshMemo, under its lock, so that one call follows another.
use aibris.Prelude.{
  ◌≡◌, refl, sym, ◌∙◌, Text, List, [], ◌∷◌, ◌++◌, Bool, true, false, ◌&&◌, not, inl, inr, ◌⊎◌,
  Option, none, some, if◌then◌else◌, if_either, text_eq, text_eq_iff, is_empty, In, codes, sort,
  text_lt, Result, ok, err, arith,
}
use aibris.Cleaner.Items.{join_nul}
use aibris.Cleaner.Overlap.{OverlapSafetyEvidence}

-- RefreshMemo
pub record RefreshMemo : Type 0 where
  pub loaded : Bool
  pub key : Text
  pub evidence : OverlapSafetyEvidence

pub data RefreshError : Type 0 where
  refresh_failed : RefreshError

-- What one call of Get meets: a fingerprint function or none, the fingerprint or none where it
-- fails, and what a refresh gives, if it is made.
pub record Call : Type 0 where
  pub has_fingerprint : Bool
  pub fingerprint : Option Text
  pub refresh : Result RefreshError OverlapSafetyEvidence

-- The key of a call; empty where there is no fingerprint.
abbrev pub fingerprint_or_empty : Option Text → Text
fingerprint_or_empty none = []
fingerprint_or_empty (some key) = key

abbrev pub call_key : Call → Text
call_key call = if call.has_fingerprint then fingerprint_or_empty call.fingerprint else []

-- The cached evidence is used.
unfoldable pub is_reused : RefreshMemo → Call → Bool
is_reused memo call =
    memo.loaded
    && (call.has_fingerprint
        && (not (is_empty (call_key call)) && text_eq (call_key call) memo.key))

abbrev pub Answer : Type 0
Answer = Result RefreshError OverlapSafetyEvidence

abbrev pub store : RefreshMemo → Text → Answer → RefreshMemo × Answer
store memo key (err e) = (memo, err e)
store memo key (ok evidence) =
    (record { loaded = true; key = key; evidence = evidence }, ok evidence)

-- Get: the memo after it, and its answer.
unfoldable pub get : RefreshMemo → Call → RefreshMemo × Answer
get memo call =
    if is_reused memo call
    then (memo, ok memo.evidence)
    else store memo (call_key call) call.refresh

abbrev pub no_evidence : OverlapSafetyEvidence
no_evidence = record { items = []; provider_errors = 0; complete = false }

-- reset
abbrev pub empty_memo : RefreshMemo
empty_memo = record { loaded = false; key = []; evidence = no_evidence }

-- The memos that calls and resets lead to, with the calls since the last reset.
pub data Reachable : RefreshMemo → List Call → Type 0 where
  reset : Reachable empty_memo []
  called :
      {memo : RefreshMemo} {calls : List Call}
      → Reachable memo calls
      → (call : Call) → Reachable (get memo call).0 (call ∷ calls)

-- A call that refreshed the evidence under the key.
abbrev pub Refreshed : Text → OverlapSafetyEvidence → List Call → Type 0
Refreshed key evidence calls =
    (call : Call) × In call calls × (call.refresh ≡ ok evidence) × (call_key call ≡ key)

abbrev Known : RefreshMemo → List Call → Type 0
Known memo calls = memo.loaded ≡ true → Refreshed memo.key memo.evidence calls

earlier :
    (key : Text) (evidence : OverlapSafetyEvidence) (call : Call) (calls : List Call)
    → Refreshed key evidence calls
    → Refreshed key evidence (call ∷ calls)
earlier key evidence call calls (c, i, r, k) = (c, inr i, r, k)

store-Known :
    (memo : RefreshMemo) (call : Call) (calls : List Call) (answer : Answer)
    → call.refresh ≡ answer
    → Known memo calls
    → Known (store memo (call_key call) answer).0 (call ∷ calls)
store-Known memo call calls (err e) q known loaded =
    earlier memo.key memo.evidence call calls (known loaded)
store-Known memo call calls (ok evidence) q known loaded = (call, inl refl, q, refl)

get-Known :
    (memo : RefreshMemo) (calls : List Call) (call : Call)
    → Known memo calls
    → Known (get memo call).0 (call ∷ calls)
unfolding get
get-Known memo calls call known =
    if_either (λ (r : RefreshMemo × Answer). Known r.0 (call ∷ calls)) (is_reused memo call) _ _
      (λ e loaded. earlier memo.key memo.evidence call calls (known loaded))
      (λ e. store-Known memo call calls call.refresh refl known)

Reachable-Known : (memo : RefreshMemo) (calls : List Call) → Reachable memo calls → Known memo calls
Reachable-Known memo calls reset = λ loaded. cc
Reachable-Known memo calls (called r call) = get-Known _ _ call (Reachable-Known _ _ r)

reused_parts :
    (memo : RefreshMemo) (call : Call)
    → is_reused memo call ≡ true
    → (memo.loaded ≡ true) × (is_empty (call_key call) ≡ false) × (call_key call ≡ memo.key)
unfolding is_reused
reused_parts memo call h =
    (ground arith, ground arith, (text_eq_iff (call_key call) memo.key).0 (ground arith))

store-answer :
    (memo : RefreshMemo) (key : Text) (answer : Answer) (evidence : OverlapSafetyEvidence)
    → (store memo key answer).1 ≡ ok evidence
    → answer ≡ ok evidence
store-answer memo key (err e) evidence h = cc
store-answer memo key (ok found) evidence h = h

-- Evidence that Get gives was refreshed by this call, or by an earlier one since the last reset under
-- the same key, which is not empty: evidence of another key, or of a failed refresh, is never given.
pub get-Refreshed :
    (memo : RefreshMemo) (calls : List Call)
    → Reachable memo calls
    → (call : Call) (evidence : OverlapSafetyEvidence) → (get memo call).1 ≡ ok evidence
    → (call.refresh ≡ ok evidence)
      ⊎ ((is_empty (call_key call) ≡ false) × Refreshed (call_key call) evidence calls)
unfolding get
get-Refreshed memo calls r call evidence =
    if_either
      (λ (a : RefreshMemo × Answer).
        a.1 ≡ ok evidence
        → (call.refresh ≡ ok evidence)
          ⊎ ((is_empty (call_key call) ≡ false) × Refreshed (call_key call) evidence calls))
      (is_reused memo call) _ _
      (λ e h.
        let (loaded, full, same) = reused_parts memo call e in
        let (c, i, q, k) = Reachable-Known memo calls r loaded in
        inr (full, (c, i, q ∙ h, k ∙ sym same)))
      (λ e h. inl (store-answer memo (call_key call) call.refresh evidence h))

-- What os.ReadDir gives for a store: names, and whether they are directories.
pub data Listing : Type 0 where
  absent unreadable : Listing
  listed : List (Text × Bool) → Listing

unfoldable pub directory_names : List (Text × Bool) → List Text
directory_names [] = []
directory_names ((name, is_dir) ∷ entries) =
    let rest = directory_names entries in if is_dir then name ∷ rest else rest

abbrev pub nul : Text
nul = 0 ∷ []

-- The part of the key for one root; `none` where the store cannot be read.
abbrev pub root_part : Text → Listing → Option Text
root_part root absent = some (root ++ (nul ++ codes "<absent>"))
root_part root unreadable = none
root_part root (listed entries) =
    some (root ++ (nul ++ join_nul (sort text_lt (directory_names entries))))

unfoldable pub join_bar : List Text → Text
join_bar [] = []
join_bar (part ∷ []) = part
join_bar (part ∷ next ∷ parts) = part ++ codes "|" ++ join_bar (next ∷ parts)

abbrev before_part : Option Text → Option (List Text) → Option (List Text)
before_part none parts = none
before_part (some part) none = none
before_part (some part) (some parts) = some (part ∷ parts)

unfoldable pub root_parts : (Text → Listing) → List Text → Option (List Text)
root_parts read_dir [] = some []
root_parts read_dir (root ∷ roots) =
    before_part (root_part root (read_dir root)) (root_parts read_dir roots)

abbrev joined_parts : Option (List Text) → Option Text
joined_parts none = none
joined_parts (some parts) = some (join_bar parts)

-- AgentStateEntryFingerprint, with the stores' roots; `none` is its error.
unfoldable pub agent_state_entry_fingerprint :
    Bool → (Text → Listing) → Option (List Text) → Option Text
agent_state_entry_fingerprint is_cancelled read_dir none = none
agent_state_entry_fingerprint is_cancelled read_dir (some roots) =
    if is_cancelled then none else joined_parts (root_parts read_dir roots)

-- Two stores with one key: one that is absent, and one whose only entry is named "<absent>".
absent-alias :
    agent_state_entry_fingerprint false (λ root. absent) (some (codes "/s" ∷ []))
    ≡ agent_state_entry_fingerprint false
        (λ root. listed ((codes "<absent>", true) ∷ []))
        (some (codes "/s" ∷ []))
unfolding agent_state_entry_fingerprint root_parts directory_names join_bar join_nul sort
absent-alias = refl
