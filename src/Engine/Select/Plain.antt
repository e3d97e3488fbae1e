-- ===== src/Engine/Select/Plain.antt =====
-- A SELECT over the rows of a table without a fast array answers with the rows that it is to find.
use super_db.Engine.Condition.{CompiledCondition}
use super_db.Engine.Outcome.{background}
use super_db.Engine.Order.{HeapOps, OrderEntry}
use super_db.Engine.Select.{
  apply_offset, sat_add, max_int, reached, row_cap, row_projection_key, selected_values,
}
use super_db.Engine.Select.Found.{
  cut_full, cut_room, distinct_lines, found_lines, length-distinct_lines, length-found_lines,
  row_cap_room,
}
use super_db.Engine.Select.Page.{cut, cap_result_rows-page}
use super_db.Engine.Select.Rows.{
  Query, cap_result_rows, collect_cap, cut_keys, finish_select, is_zero, line_of, materialize,
  order_found, row_test, select_ordered,
}
use super_db.Engine.Select.Scan.{Lines, answer, dedup_key, order_scan}
use super_db.Engine.Table.{Table}
use super_db.Engine.Value.{Floats, Row, Value}
use super_db.Prelude.Map.{get, has, put}
use super_db.Prelude.{
  ℕ, Text, List, Bool, Option, none, some, true, false, ◌∷◌, [], ◌++◌, ◌≡◌, ◌≤◌, refl, ap, ◌∙◌, sym,
  arith, length, map, take, drop, Bool-cases, inl, inr, append-nil, append_assoc, text_instance,
}
use super_db.Engine.Select.Dedup.{line, line-there, projected_key-there, map-take, take-take}
use super_db.Engine.Select.Ordered.{scan_full, order_scan_collects}

module _ {F : Type 0} ⦃fl : Floats F⦄ (t : Table F) (no_fast : t.fast ≡ [])
    (names : List Text) where
  line_of-line : (key : Text) → line_of t names key ≡ answer (line t no_fast names key)
  unfolding line_of
  line_of-line key = rw (line_of, no_fast) refl

  materialize_stop :
      (most : Option ℕ) (key : Text) (keys : List Text) (acc : Lines F)
      → reached most (length (acc ++ (line t no_fast names key ∷ []))) ≡ true
      → materialize t names most (key ∷ keys) acc ≡ answer (acc ++ (line t no_fast names key ∷ []))
  unfolding materialize
  materialize_stop most key keys acc h = rw (materialize, line_of-line key, h) refl

  materialize_on :
      (most : Option ℕ) (key : Text) (keys : List Text) (acc : Lines F)
      → reached most (length (acc ++ (line t no_fast names key ∷ []))) ≡ false
      → materialize t names most (key ∷ keys) acc
        ≡ materialize t names most keys (acc ++ (line t no_fast names key ∷ []))
  unfolding materialize
  materialize_on most key keys acc h = rw (materialize, line_of-line key, h) refl

  materialize_lem :
      (most : Option ℕ) (keys : List Text) (acc : Lines F)
      → reached most (length acc) ≡ false
      → materialize t names most keys acc
        ≡ answer (cut most (acc ++ map (line t no_fast names) keys))
  unfolding materialize
  materialize_lem most [] acc room =
      ap answer (sym (cut_room most acc room) ∙ ap (cut most) (sym (append-nil acc)))
  materialize_lem most (key ∷ keys) acc room =
      let here = line t no_fast names key in
      let behind = map (line t no_fast names) keys in
      elim (Bool-cases (reached most (length (acc ++ (here ∷ []))))) [
        | inl full ↦
            materialize_stop most key keys acc full
            ∙ ap answer (sym (cut_full most acc behind here room full))
        | inr more ↦
            materialize_on most key keys acc more
            ∙ materialize_lem most keys (acc ++ (here ∷ [])) more
            ∙ ap (λ (ls : Lines F). answer (cut most ls)) (append_assoc acc (here ∷ []) behind)
      ]

  cut_twice :
      (distinct : Bool) (most : Option ℕ) (keys : List Text) (ls : Lines F)
      → map (line t no_fast names) keys ≡ cut most ls
      → cut most (map (line t no_fast names) (cut_keys distinct most keys)) ≡ cut most ls
  unfolding cut_keys
  cut_twice true none keys ls e = e
  cut_twice false none keys ls e = e
  cut_twice true (some n) keys ls e = ap (take n) e ∙ take-take n ls
  cut_twice false (some n) keys ls e =
      ap (take n) (map-take (line t no_fast names) n keys)
      ∙ take-take n _
      ∙ ap (take n) e
      ∙ take-take n ls

pub row_cap_zero : row_cap (some 0) 0 0 ≡ some 0
unfolding row_cap sat_add
row_cap_zero = refl

reached_zero : (n : ℕ) → reached (some 0) n ≡ true
unfolding reached
reached_zero n = ground arith

cut_keys_distinct : (most : Option ℕ) (keys : List Text) → cut_keys true most keys ≡ keys
unfolding cut_keys
cut_keys_distinct most keys = refl

module _ {F : Type 0} ⦃fl : Floats F⦄ where
  dedup_key-first :
      (t : Table F)
      → t.fast ≡ []
      → (names : List Text) (key : Text) (row : Row F) → get t.rows key ≡ some row
      → dedup_key true t names [] key
        ≡ (put [] (row_projection_key (selected_values row names)) tt, false)
  unfolding dedup_key has get
  dedup_key-first t no_fast names key row e =
      rw (dedup_key, projected_key-there t no_fast names key row e) refl

  kept_row : (l : List (Value F)) → cap_result_rows 0 (apply_offset 0 (l ∷ [])) ≡ answer (l ∷ [])
  unfolding cap_result_rows apply_offset
  kept_row l = refl

module _ {F : Type 0} ⦃fl : Floats F⦄ (lower : Text → Text) (ops : HeapOps (OrderEntry F))
    (sort : (OrderEntry F → OrderEntry F → Bool) → List (OrderEntry F) → List (OrderEntry F)) where
  -- On a table without a fast array, a SELECT without ORDER BY that scans the rows answers with those of
  -- the scan order that its WHERE holds for, in the listed columns, without repeated lines where it says
  -- DISTINCT, from the offset on and as many as the limit allows, or refuses where these are more than
  -- MaxRows. It assumes that the limit is not zero, that the sizes are an int and that nothing cancels.
  pub select_ordered-page :
      (t : Table F) (q : Query) (c : CompiledCondition F)
      → t.fast ≡ []
      → q.order_column ≡ []
      → is_zero q.limit ≡ false
      → q.offset ≤ max_int
      → q.max_rows ≤ max_int
      → length t.order ≤ max_int
      → select_ordered background lower ops sort t q c
        ≡ cap_result_rows q.max_rows (
            cut q.limit (
              drop q.offset
                (distinct_lines q.distinct [] (found_lines (row_test q c) q.names t.rows t.order))))
  unfolding select_ordered collect_cap finish_select order_found
  select_ordered-page t q c no_fast unordered some_limit offset_fits most_fits rows_fit =
      let most = row_cap q.limit q.offset q.max_rows in
      let room = row_cap_room q.limit q.offset q.max_rows offset_fits some_limit in
      let lines =
        distinct_lines q.distinct [] (found_lines (row_test q c) q.names t.rows t.order) in
      let (keys, n, s, f) =
        order_scan_collects t no_fast q.names (row_test q c) q.distinct most t.order 0 [] [] room in
      let lines_fit : length lines ≤ max_int = omega (
        arith,
        rows_fit,
        length-distinct_lines q.distinct [] (found_lines (row_test q c) q.names t.rows t.order),
        length-found_lines (row_test q c) q.names t.rows t.order,
      ) in
      rw
        (
          select_ordered,
          unordered,
          s,
          materialize_lem t no_fast q.names most (cut_keys q.distinct most keys) [] room,
          cut_twice t no_fast q.names q.distinct most keys lines f,
        )
        (cap_result_rows-page q.max_rows q.offset lines offset_fits most_fits lines_fit q.limit)

  -- A SELECT DISTINCT with LIMIT 0 and without ORDER BY, OFFSET and MaxRows that scans the rows of a table
  -- without a fast array answers with a row, if the first key of the scan order has a row that its WHERE
  -- holds for and nothing cancels.
  pub select_ordered-distinct_zero :
      (t : Table F) (q : Query) (c : CompiledCondition F) (key : Text) (order : List Text)
      (row : Row F)
      → t.fast ≡ []
      → q.order_column ≡ []
      → q.distinct ≡ true
      → q.limit ≡ some 0
      → q.offset ≡ 0
      → q.max_rows ≡ 0
      → t.order ≡ key ∷ order
      → get t.rows key ≡ some row
      → row_test q c row ≡ true
      → select_ordered background lower ops sort t q c ≡ answer (selected_values row q.names ∷ [])
  unfolding select_ordered collect_cap finish_select order_found
  select_ordered-distinct_zero t q c key order row no_fast unordered distinct limit offset most
        first e h =
      let cap = row_cap q.limit q.offset q.max_rows in
      let zero_cap : cap ≡ some 0 =
        ap (λ (l : Option ℕ). row_cap l q.offset q.max_rows) limit
        ∙ ap (λ (o : ℕ). row_cap (some 0) o q.max_rows) offset
        ∙ ap (row_cap (some 0) 0) most
        ∙ row_cap_zero in
      let scanned =
        ap
          (λ (keys : List Text).
            order_scan background (row_test q c) t q.names q.distinct cap keys 0 [] [])
          first
        ∙ scan_full t no_fast q.names (row_test q c) q.distinct cap key order 0 []
            (put [] (row_projection_key (selected_values row q.names)) tt) [] row e h
            (ap (λ (d : Bool). dedup_key d t q.names [] key) distinct
              ∙ dedup_key-first t no_fast q.names key row e)
            (ap (λ (m : Option ℕ). reached m 1) zero_cap ∙ reached_zero 1) in
      let kept : cut_keys q.distinct cap (key ∷ []) ≡ key ∷ [] =
        ap (λ (d : Bool). cut_keys d cap (key ∷ [])) distinct ∙ cut_keys_distinct cap (key ∷ []) in
      let built =
        ap (λ (keys : List Text). materialize t q.names cap keys []) kept
        ∙ materialize_stop t no_fast q.names cap key [] []
            (ap (λ (m : Option ℕ). reached m 1) zero_cap ∙ reached_zero 1) in
      let there = line-there t no_fast q.names key row e in
      rw (select_ordered, unordered, scanned, built)
        (ap (λ (l : List (Value F)). cap_result_rows q.max_rows (apply_offset q.offset (l ∷ [])))
            there
          ∙ ap
              (λ (o : ℕ).
                cap_result_rows q.max_rows (apply_offset o (selected_values row q.names ∷ [])))
              offset
          ∙ ap (λ (m : ℕ). cap_result_rows m (apply_offset 0 (selected_values row q.names ∷ [])))
              most
          ∙ kept_row (selected_values row q.names))
