-- ===== src/Cleaner/Overlap/Runtime/Bytes.antt =====
-- internal/cleaner/overlap_safety_runtime.go: the bytes of a component's rows.
use aibris.Prelude.{
  ℕ, ℤ, pos, ◌+ℤ◌, ◌≡◌, refl, Text, List, [], ◌∷◌, ◌++◌, map, Bool, true, false, Option-cases, inl,
  inr, if_either, is_empty, any_of, All, All-sort, All-map, All-intro, All-snoc, In, In-sort, sort,
  arith,
}
use aibris.Types.{DebrisInfo}
use aibris.Cleaner.Items.{FileSystem, target_path_key}
use aibris.Cleaner.Overlap.{OverlapSafetyComponent}
use aibris.Cleaner.Overlap.Rows.{
  LogicalInput, LogicalRow, is_owner_row, owner_row, ensure_owner_row, row_before, number_rows,
  sort_rows,
}
use aibris.Cleaner.Overlap.Runtime.{
  CleanupComponent, input_relation, rows_of_inputs, with_size, cleanup_component,
  build_cleanup_components,
}

-- The physical bytes of rows.
unfoldable pub total_bytes : List LogicalRow → ℤ
total_bytes [] = pos 0
total_bytes (row ∷ rows) = row.physical_bytes +ℤ total_bytes rows

abbrev NoBytes : LogicalRow → Type 0
NoBytes row = row.physical_bytes ≡ pos 0

+ℤ-zero : (z : ℤ) → z +ℤ pos 0 ≡ z
unfolding ◌+ℤ◌
+ℤ-zero z = ground arith

total_bytes-none : (rows : List LogicalRow) → All NoBytes rows → total_bytes rows ≡ pos 0
unfolding total_bytes
total_bytes-none [] h = refl
total_bytes-none (row ∷ rows) h = rw h.0 (rw (total_bytes-none rows h.1) (+ℤ-zero (pos 0)))

with_size-total :
    (size : ℤ) (rows : List LogicalRow)
    → is_empty rows ≡ false
    → All NoBytes rows
    → total_bytes (with_size size rows) ≡ size
unfolding total_bytes
with_size-total size [] filled h = cc
with_size-total size (row ∷ rows) filled h = rw (total_bytes-none rows h.1) (+ℤ-zero size)

rows_of_inputs-NoBytes :
    (fs : FileSystem) (safety : OverlapSafetyComponent) (inputs : List LogicalInput)
    → All NoBytes (rows_of_inputs fs safety inputs)
unfolding rows_of_inputs
rows_of_inputs-NoBytes fs safety [] = tt
rows_of_inputs-NoBytes fs safety (input ∷ inputs) =
    elim (Option-cases (target_path_key fs input.item.path)) [
      | inl n ↦ rw (n, rows_of_inputs) (rows_of_inputs-NoBytes fs safety inputs)
      | inr (path, n) ↦ elim (Option-cases (input_relation safety input.item path)) [
        | inl m ↦ rw (n, rows_of_inputs, m) (rows_of_inputs-NoBytes fs safety inputs)
        | inr (relation, m) ↦
            rw (n, rows_of_inputs, m) (refl, rows_of_inputs-NoBytes fs safety inputs)
      ]
    ]

append_not_empty : (rows : List LogicalRow) (row : LogicalRow) → is_empty (rows ++ row ∷ []) ≡ false
append_not_empty [] row = refl
append_not_empty (r ∷ rows) row = refl

any_not_empty :
    (test : LogicalRow → Bool) (rows : List LogicalRow)
    → any_of test rows ≡ true
    → is_empty rows ≡ false
unfolding any_of
any_not_empty test [] h = cc
any_not_empty test (row ∷ rows) h = refl

-- Rows without bytes, at least one.
abbrev Blank : List LogicalRow → Type 0
Blank rows = (is_empty rows ≡ false) × All NoBytes rows

ensure_owner_row-Blank :
    (rows : List LogicalRow) (target : DebrisInfo) (path : Text)
    → All NoBytes rows
    → Blank (ensure_owner_row rows target path)
unfolding ensure_owner_row
ensure_owner_row-Blank rows target path h =
    if_either Blank (any_of (is_owner_row target path) rows) _ _
      (λ e. (any_not_empty (is_owner_row target path) rows e, h))
      (λ e. (
        append_not_empty rows (owner_row target path),
        All-snoc NoBytes rows (owner_row target path) h refl,
      ))

number_rows-NoBytes :
    (decimal : ℕ → Text) (target : DebrisInfo) (rows : List LogicalRow)
    → All NoBytes rows
    → (seen : List Text) (assigned : Bool)
    → All NoBytes (number_rows decimal target seen assigned rows)
unfolding number_rows
number_rows-NoBytes decimal target [] h seen assigned = tt
number_rows-NoBytes decimal target (row ∷ rows) h seen assigned =
    (h.0, number_rows-NoBytes decimal target rows h.1 _ _)

number_rows-not_empty :
    (decimal : ℕ → Text) (target : DebrisInfo) (seen : List Text) (assigned : Bool)
    (rows : List LogicalRow)
    → is_empty rows ≡ false
    → is_empty (number_rows decimal target seen assigned rows) ≡ false
unfolding number_rows
number_rows-not_empty decimal target seen assigned [] h = cc
number_rows-not_empty decimal target seen assigned (row ∷ rows) h = refl

insert-not_empty :
    (less : LogicalRow → LogicalRow → Bool) (rows : List LogicalRow)
    → is_empty rows ≡ false
    → is_empty (sort less rows) ≡ false
insert-not_empty less [] h = cc
insert-not_empty less (row ∷ rows) h =
    filled (sort less (row ∷ rows)) (In-sort less (row ∷ rows) row (inl refl))
  where
    filled : (sorted : List LogicalRow) → In row sorted → is_empty sorted ≡ false
    filled [] i = absurd i
    filled (r ∷ rs) i = refl

sort_rows-Blank :
    (decimal : ℕ → Text) (rows : List LogicalRow) (target : DebrisInfo)
    → Blank rows
    → Blank (sort_rows decimal rows target)
unfolding sort_rows
sort_rows-Blank decimal rows target (filled, h) = (
  number_rows-not_empty decimal target [] false (sort (row_before target) rows)
      (insert-not_empty (row_before target) rows filled),
  number_rows-NoBytes decimal target (sort (row_before target) rows)
      (All-sort (row_before target) NoBytes rows h) [] false,
)

component-bytes :
    (fs : FileSystem) (decimal : ℕ → Text) (inputs : List LogicalInput)
    (safety : OverlapSafetyComponent)
    → total_bytes (cleanup_component fs decimal inputs safety).rows
      ≡ (cleanup_component fs decimal inputs safety).owner.size
unfolding cleanup_component
component-bytes fs decimal inputs safety =
    let (filled, blank) =
      sort_rows-Blank decimal
        (ensure_owner_row (rows_of_inputs fs safety inputs) safety.target safety.canonical_path)
        safety.target
        (ensure_owner_row-Blank (rows_of_inputs fs safety inputs) safety.target
          safety.canonical_path (rows_of_inputs-NoBytes fs safety inputs)) in
    with_size-total safety.target.size _ filled blank

-- Each component of the selection counts its owner's size once, however many rows stand for the
-- same directory.
pub build_cleanup_components-bytes :
    (fs : FileSystem) (decimal : ℕ → Text) (plan : List OverlapSafetyComponent)
    (inputs : List LogicalInput)
    → All
        (λ component. total_bytes component.rows ≡ component.owner.size)
        (build_cleanup_components fs decimal plan inputs)
unfolding build_cleanup_components
build_cleanup_components-bytes fs decimal plan inputs =
    All-sort _ (λ (component : CleanupComponent). total_bytes component.rows ≡ component.owner.size)
      (map (cleanup_component fs decimal inputs) plan)
      (All-map (cleanup_component fs decimal inputs)
        (λ (component : CleanupComponent). total_bytes component.rows ≡ component.owner.size) plan
        (All-intro
          (λ safety.
            total_bytes (cleanup_component fs decimal inputs safety).rows
            ≡ (cleanup_component fs decimal inputs safety).owner.size)
          plan (λ safety i. component-bytes fs decimal inputs safety)))
