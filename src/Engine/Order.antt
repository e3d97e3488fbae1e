-- ===== src/Engine/Order.antt =====
-- internal/engine/orderby.go: ORDER BY, with the heap that keeps the first rows of a LIMIT.
pub mod Rearrange
pub mod Best
pub mod Ranked
use super_db.Prelude.Map.{get, get_or}
use super_db.Prelude.{
  ℕ, Text, List, Bool, Option, none, some, true, false, ◌∷◌, [], if◌then◌else◌, not, ltb, length,
  get_elem?, map, text_instance, ◌+◌, ◌==◌,
}
use super_db.Engine.Value.{Floats, Value, Row, cell, value_less}
use super_db.Engine.Table.{Table, FastRow}

-- container/heap, on the entries of the heap and its Less
pub record HeapOps (A : Type 0) : Type 0 where
  pub push : (A → A → Bool) → List A → A → List A
  pub pop : (A → A → Bool) → List A → List A

-- The loop of `topKEntries` with `before` for rankBefore; the heap's Less is that the other way round.
-- none is the panic of h.entries[0] on an empty heap.
module _ {A : Type 0} (ops : HeapOps A) (before : A → A → Bool) where
  abbrev pub less : A → A → Bool
  less a b = before b a

  unfoldable pub top_k_from : ℕ → List A → List A → Option (List A)
  top_k_from k h [] = some h
  top_k_from k h (e ∷ es) = elim (ltb (length h) k) [
    | true ↦ top_k_from k (ops.push less h e) es
    | false ↦ elim h [
      | [] ↦ none
      | x ∷ xs ↦ elim (before e x) [
        | true ↦ top_k_from k (ops.push less (ops.pop less (x ∷ xs)) e) es
        | false ↦ top_k_from k (x ∷ xs) es
      ]
    ]
  ]

  -- `topKEntries`
  unfoldable pub top_k_entries : List A → ℕ → Option (List A)
  top_k_entries entries k = top_k_from k [] entries

-- `orderEntry`
pub record OrderEntry (F : Type 0) : Type 0 where
  pub key : Text
  pub val : Value F
  pub seq : ℕ

module _ {F : Type 0} ⦃fl : Floats F⦄ where
  -- `rankBefore`
  unfoldable pub rank_before : Bool → OrderEntry F → OrderEntry F → Bool
  rank_before descending a b =
      if value_less a.val b.val
      then not descending
      else if value_less b.val a.val
      then descending
      else ltb a.seq b.seq

  -- The value in the fast array, if the row and the column are there
  fast_value : List (FastRow F) → Option ℕ → Option ℕ → Option (Value F)
  fast_value fast (some column) (some index) = elim (get_elem? fast index) [
    | none ↦ none
    | some row ↦ if length row.key == 0 then none else get_elem? row.values column
  ]
  fast_value fast _ _ = none

  order_value : Table F → Text → Text → Value F
  unfolding fast_value
  order_value t column key =
      get_or (fast_value t.fast (get t.positions column) (get t.fast_pos key))
        (cell (get_or (get t.rows key) []) column)

  -- the loop that resolves the order values
  unfoldable pub order_entries : Table F → Text → ℕ → List Text → List (OrderEntry F)
  unfolding order_value
  order_entries t column seq [] = []
  order_entries t column seq (key ∷ keys) =
      record { key = key; val = order_value t column key; seq = seq }
      ∷ order_entries t column (seq + 1) keys

  key_of : OrderEntry F → Text
  key_of e = e.key

  unfoldable pub sorted_keys :
      ((OrderEntry F → OrderEntry F → Bool) → List (OrderEntry F) → List (OrderEntry F))
      → Bool
      → Option (List (OrderEntry F))
      → Option (List Text)
  unfolding key_of
  sorted_keys sort descending none = none
  sorted_keys sort descending (some entries) =
      some (map key_of (sort (rank_before descending) entries))

  unfoldable pub cut_entries :
      HeapOps (OrderEntry F) → Bool → Option ℕ → List (OrderEntry F) → Option (List (OrderEntry F))
  cut_entries ops descending none entries = some entries
  cut_entries ops descending (some cap) entries =
      if ltb cap (length entries)
      then top_k_entries ops (rank_before descending) entries cap
      else some entries

  -- `orderKeys`; a cap that is none is negative, and `sort` is sort.Slice
  unfoldable pub order_keys :
      HeapOps (OrderEntry F)
      → ((OrderEntry F → OrderEntry F → Bool) → List (OrderEntry F) → List (OrderEntry F))
      → Table F
      → List Text
      → Text
      → Bool
      → Option ℕ
      → Option (List Text)
  unfolding order_entries sorted_keys cut_entries
  order_keys ops sort t keys column descending cap =
      sorted_keys sort descending (cut_entries ops descending cap (order_entries t column 0 keys))
