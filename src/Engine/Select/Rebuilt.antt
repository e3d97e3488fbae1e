-- ===== src/Engine/Select/Rebuilt.antt =====
-- A SELECT over the fast array answers with the rows that it is to find.
use super_db.Engine.Condition.{CompiledCondition}
use super_db.Engine.Condition.Fast.{matches_fast-matches_map, position}
use super_db.Engine.Condition.Parse.{compile_condition}
use super_db.Engine.Outcome.{background}
use super_db.Engine.Order.{HeapOps, OrderEntry}
use super_db.Engine.Select.{
  max_int, reached, row_cap, selected_fast_values, fast_cell, selected_values,
}
use super_db.Engine.Select.Found.{
  distinct_lines, found_lines, length-distinct_lines, length-found_lines, row_cap_room,
}
use super_db.Engine.Select.Page.{cut, cap_result_rows-page}
use super_db.Engine.Select.Rows.{
  Query, cap_result_rows, fast_test, is_zero, missing_column, row_test, select_fast,
}
use super_db.Engine.Select.Scan.{Lines, answer, fast_scan}
use super_db.Engine.Table.{
  FastRow, Table, fast_path_threshold, number_columns, rebuild_fast_path, values_of,
}
use super_db.Engine.Value.{Floats, Row, has_column}
use super_db.Prelude.Map.{Map, remove}
use super_db.Prelude.{
  ℕ, Text, List, Bool, Option, none, some, true, false, ◌∷◌, [], ◌≡◌, ◌≤◌, refl, ap, ◌∙◌, arith,
  length, ltb, drop, Bool-cases, Option-cases, inl, inr, text_instance,
}
use super_db.Engine.Select.Fast.{fresh, rebuild_rows-fresh, fast_scan-found}

-- UPDATE can move a row to the empty key, which marks a deleted row in the fast array: `shown` is without it.
module _ {F : Type 0} ⦃fl : Floats F⦄ (lower : Text → Text) (ops : HeapOps (OrderEntry F))
    (sort : (OrderEntry F → OrderEntry F → Bool) → List (OrderEntry F) → List (OrderEntry F))
    (t : Table F) (q : Query) (c : CompiledCondition F)
    (compiled : compile_condition lower q.condition t.columns ≡ some c)
    (there : missing_column t q.names ≡ none) where
  abbrev shown : Map Text (Row F)
  shown = remove t.rows []

  fast_test-row_test :
      (u : Table F) (row : Row F)
      → u.positions ≡ number_columns 0 t.columns []
      → fast_test q none c u (values_of t.columns row) ≡ some (row_test q c row)
  unfolding fast_test row_test
  fast_test-row_test u row e =
      ground (arith, e, matches_fast-matches_map row lower q.condition t.columns c compiled)

  selected_fast_values-known :
      (row : Row F) (names : List Text)
      → missing_column t names ≡ none
      → selected_fast_values (values_of t.columns row) names (number_columns 0 t.columns [])
        ≡ selected_values row names
  unfolding selected_fast_values selected_values missing_column fast_cell
  selected_fast_values-known row [] h = refl
  selected_fast_values-known row (n ∷ names) h =
      let known : has_column t.columns n ≡ true = ground (arith, h) in
      let (j, e, v) = position row 0 t.columns [] n known in
      ground (arith, e, v, h, selected_fast_values-known row names)

  abbrev lines : Lines F
  lines = distinct_lines q.distinct [] (found_lines (row_test q c) q.names shown t.order)

  rebuilt :
      ltb (length t.order) fast_path_threshold ≡ false
      → ((rebuild_fast_path t).fast ≡ fresh t.columns t.rows t.order)
        × ((rebuild_fast_path t).positions ≡ number_columns 0 t.columns [])
  unfolding rebuild_fast_path
  rebuilt big = rw big (rebuild_rows-fresh t.columns t.rows t.order [] [], refl)

  scan-rebuilt :
      (u : Table F) (most : Option ℕ)
      → u.fast ≡ fresh t.columns t.rows t.order
      → u.positions ≡ number_columns 0 t.columns []
      → reached most 0 ≡ false
      → fast_scan background
          (fast_test q none c u)
          q.names
          u.positions
          q.distinct
          most
          u.fast
          0
          []
          []
        ≡ answer (cut most lines)
  scan-rebuilt u most e p room =
      ap
        (λ (fast : List (FastRow F)).
          fast_scan background (fast_test q none c u) q.names u.positions q.distinct most fast 0 []
            [])
        e
      ∙ fast_scan-found (fast_test q none c u) (row_test q c) t.columns q.names u.positions t.rows
          (λ row. fast_test-row_test u row p)
          (λ row.
            ap (selected_fast_values (values_of t.columns row) q.names) p
            ∙ selected_fast_values-known row q.names there)
          q.distinct most t.order 0 [] [] room

  lines_fit : length t.order ≤ max_int → length lines ≤ max_int
  lines_fit h = omega (
    arith,
    h,
    length-distinct_lines q.distinct [] (found_lines (row_test q c) q.names shown t.order),
    length-found_lines (row_test q c) q.names shown t.order,
  )

  zero_limit :
      (u : Table F)
      → is_zero q.limit ≡ true
      → select_fast background lower ops sort u q none c
        ≡ cap_result_rows q.max_rows (cut q.limit (drop q.offset lines))
  unfolding select_fast is_zero cap_result_rows
  zero_limit u h = elim (Option-cases q.limit) [
    | inl e ↦ absurd (ground (arith, e, h))
    | inr (n, e) ↦
        let z : n ≡ 0 = ground (arith, e, h) in rw (select_fast, h) (rw (e, z) (ground arith))
  ]

  -- On a table of 256 keys or more in the scan order whose fast array has just been rebuilt, a SELECT without
  -- ORDER BY that scans the array and tests each row by its compiled WHERE answers with the rows of the scan
  -- order that the WHERE holds for, but for a row under the empty key, which it leaves out: in their columns,
  -- without repeated lines where it says DISTINCT, from the offset on and as many as the limit allows. It
  -- refuses where these are more than MaxRows. It assumes that the listed columns are there, that the sizes
  -- are an int and that nothing cancels.
  pub select_fast-page :
      ltb (length t.order) fast_path_threshold ≡ false
      → q.offset ≤ max_int
      → q.max_rows ≤ max_int
      → length t.order ≤ max_int
      → select_fast background lower ops sort (rebuild_fast_path t) q none c
        ≡ cap_result_rows q.max_rows (
            cut q.limit (
              drop q.offset (
                distinct_lines q.distinct []
                  (found_lines (row_test q c) q.names (remove t.rows []) t.order))))
  unfolding select_fast
  select_fast-page big offset_fits most_fits rows_fit = elim (Bool-cases (is_zero q.limit)) [
    | inl z ↦ zero_limit (rebuild_fast_path t) z
    | inr z ↦
        let most = row_cap q.limit q.offset q.max_rows in
        let (e, p) = rebuilt big in
        rw
          (
            select_fast,
            z,
            scan-rebuilt (rebuild_fast_path t) most e p
                (row_cap_room q.limit q.offset q.max_rows offset_fits z),
          )
          (cap_result_rows-page q.max_rows q.offset lines offset_fits most_fits (lines_fit rows_fit)
            q.limit)
  ]
