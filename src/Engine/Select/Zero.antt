-- ===== src/Engine/Select/Zero.antt =====
-- SELECT with ORDER BY and LIMIT 0 over the rows of a table.
use super_db.Engine.Condition.{CompiledCondition}
use super_db.Engine.Order.{HeapOps, OrderEntry}
use super_db.Engine.Order.Best.{order_keys_zero}
use super_db.Engine.Outcome.{background}
use super_db.Engine.Select.{reached, row_cap}
use super_db.Engine.Select.Dedup.{line}
use super_db.Engine.Select.Found.{distinct_lines, found_lines}
use super_db.Engine.Select.Ordered.{order_scan_collects}
use super_db.Engine.Select.Plain.{row_cap_zero}
use super_db.Engine.Select.Rows.{
  Query, collect_cap, finish_select, order_found, row_test, select_ordered,
}
use super_db.Engine.Select.Scan.{Lines, panicked}
use super_db.Engine.Table.{Table}
use super_db.Engine.Value.{Floats, Value}
use super_db.Prelude.{
  ℕ, Text, List, Bool, Option, none, some, false, ◌∷◌, [], ◌≡◌, refl, ap, ◌∙◌, arith, length, map,
  ◌==◌,
}

module _ {F : Type 0} ⦃fl : Floats F⦄ where
  no_distinct : (ls : Lines F) → distinct_lines false [] ls ≡ ls
  unfolding distinct_lines
  no_distinct ls = refl

module _ {F : Type 0} ⦃fl : Floats F⦄ (lower : Text → Text) (ops : HeapOps (OrderEntry F))
    (sort : (OrderEntry F → OrderEntry F → Bool) → List (OrderEntry F) → List (OrderEntry F))
    (t : Table F) (q : Query) (ordered : (length q.order_column == 0) ≡ false)
    (plain : q.distinct ≡ false) (limit : q.limit ≡ some 0) (offset : q.offset ≡ 0)
    (most : q.max_rows ≡ 0) where
  zero_cap : row_cap q.limit q.offset q.max_rows ≡ some 0
  zero_cap =
      ap (λ (l : Option ℕ). row_cap l q.offset q.max_rows) limit
      ∙ ap (λ (o : ℕ). row_cap (some 0) o q.max_rows) offset
      ∙ ap (row_cap (some 0) 0) most
      ∙ row_cap_zero

  order_found_zero :
      (key : Text) (keys : List Text) (n : ℕ)
      → order_found background lower ops sort t q (key ∷ keys) n ≡ panicked
  unfolding order_found
  order_found_zero key keys n =
      rw
        (
          order_found,
          ordered,
          plain,
          zero_cap,
          order_keys_zero ops sort t key keys q.order_column q.descending,
        )
        refl

  finish_zero :
      (keys : List Text) (n : ℕ) (l : List (Value F)) (ls : Lines F)
      (of_key : Text → List (Value F))
      → map of_key keys ≡ l ∷ ls
      → finish_select background lower ops sort t q (keys, n) ≡ panicked
  unfolding finish_select
  finish_zero [] n l ls of_key e = absurd (ground (arith, e))
  finish_zero (key ∷ keys) n l ls of_key e = rw (order_found_zero key keys n) refl

  -- A SELECT without DISTINCT that scans the rows of a table without a fast array, with ORDER BY, LIMIT 0 and
  -- neither an OFFSET nor MaxRows, panics if its WHERE holds for a row of the scan order.
  pub select_ordered-order_zero :
      (c : CompiledCondition F) (l : List (Value F)) (ls : Lines F)
      → t.fast ≡ []
      → found_lines (row_test q c) q.names t.rows t.order ≡ l ∷ ls
      → select_ordered background lower ops sort t q c ≡ panicked
  unfolding select_ordered collect_cap reached
  select_ordered-order_zero c l ls no_fast found =
      let (keys, n, s, f) =
        order_scan_collects t no_fast q.names (row_test q c) q.distinct none t.order 0 [] [] refl in
      let lines =
        ap (λ (d : Bool). distinct_lines d [] (found_lines (row_test q c) q.names t.rows t.order))
          plain in
      rw (select_ordered, ordered, s)
        (finish_zero keys n l ls (line t no_fast q.names) (f ∙ lines ∙ no_distinct _ ∙ found))
