-- ===== src/Engine/Select/Rows.antt =====
-- internal/engine/select.go: selectRows with the table's lock held, but for aggregates and groups.
use super_db.Engine.Condition.{CompiledCondition, matches_fast, matches_map}
use super_db.Engine.Condition.Parse.{compile_condition}
use super_db.Engine.Order.{HeapOps, OrderEntry, order_keys}
use super_db.Engine.Outcome.{Context}
use super_db.Engine.Select.{apply_offset, reached, row_cap, selected_fast_values, selected_values}
use super_db.Engine.Select.Scan.{
  Answer, Lines, answer, failed, panicked, ◌>>=◌, in_range, cancelled, invalid_where, too_large,
  no_order_column, no_column, fast_scan, index_scan, order_scan, row_matches, term_holds,
}
use super_db.Engine.Select.Term.{
  FastTerm, equality_key, match_fast_term, simple_equality, simple_fast_term,
}
use super_db.Engine.Table.{Table, FastRow}
use super_db.Engine.Value.{Floats, Value, Row, has_column, primary_column}
use super_db.Prelude.Map.{get, get_or, has}
use super_db.Prelude.{
  ℕ, Text, List, Bool, Option, none, some, true, false, ◌∷◌, [], ◌++◌, ◌==◌, ◌&&◌, not,
  if◌then◌else◌, length, ltb, take, text_eq, text_instance, get_elem?,
}

-- What a SELECT asks of a table: `selectTail` and the list of columns. A `limit` of none is -1, and an
-- `order_column` of [] is no ORDER BY.
pub record Query : Type 0 where
  pub names : List Text
  pub distinct : Bool
  pub condition : Text
  pub order_column : Text
  pub descending : Bool
  pub limit : Option ℕ
  pub offset : ℕ
  pub max_rows : ℕ

unfoldable pub is_zero : Option ℕ → Bool
is_zero none = false
is_zero (some n) = n == 0

unfoldable pub cut_keys : Bool → Option ℕ → List Text → List Text
cut_keys true most keys = keys
cut_keys false none keys = keys
cut_keys false (some c) keys = take c keys

module _ {F : Type 0} ⦃fl : Floats F⦄ where
  -- `capResultRows`
  unfoldable pub cap_result_rows : ℕ → Lines F → Answer (Lines F)
  cap_result_rows max_rows rows =
      if ltb 0 max_rows && ltb max_rows (length rows) then failed too_large else answer rows

  unfoldable pub missing_column : Table F → List Text → Option Text
  missing_column t [] = none
  missing_column t (n ∷ names) = if has_column t.columns n then missing_column t names else some n

  line_at : Table F → List Text → Text → Lines F
  line_at t names key = elim (get t.rows key) [
    | none ↦ []
    | some row ↦ selected_values row names ∷ []
  ]

  found_line : List Text → Table F → Option (FastRow F) → Lines F
  found_line names t none = []
  found_line names t (some r) =
      if text_eq r.key [] then [] else selected_fast_values r.values names t.positions ∷ []

  -- the equality on the primary key: one lookup, and neither the WHERE nor the cap is looked at again
  unfoldable pub by_primary : Table F → Query → Text → Lines F
  unfolding line_at found_line is_zero
  by_primary t q key =
      let rows : Lines F = elim (get t.fast_pos key) [
        | none ↦ line_at t q.names key
        | some i ↦ found_line q.names t (get_elem? t.fast i)
      ] in
      apply_offset q.offset (if is_zero q.limit then [] else rows)

  unfoldable pub row_line : Table F → List Text → Text → List (Value F)
  row_line t names key = selected_values (get_or (get t.rows key) []) names

  unfoldable pub line_of : Table F → List Text → Text → Answer (List (Value F))
  unfolding row_line
  line_of t names key =
      if length t.fast == 0 then answer (row_line t names key) else elim (get t.fast_pos key) [
        | none ↦ answer (row_line t names key)
        | some i ↦ elim (get_elem? t.fast i) [
          | none ↦ panicked
          | some r ↦
              if text_eq r.key []
              then answer (row_line t names key)
              else answer (selected_fast_values r.values names t.positions)
        ]
      ]

  -- the loops that turn keys into rows
  unfoldable pub materialize :
      Table F → List Text → Option ℕ → List Text → Lines F → Answer (Lines F)
  unfolding line_of
  materialize t names most [] rows = answer rows
  materialize t names most (key ∷ keys) rows = elim (line_of t names key) [
    | failed e ↦ failed e
    | panicked ↦ panicked
    | answer line ↦ elim (reached most (length (rows ++ (line ∷ [])))) [
      | true ↦ answer (rows ++ (line ∷ []))
      | false ↦ materialize t names most keys (rows ++ (line ∷ []))
    ]
  ]

  -- `where == "" || compiled…`
  unfoldable pub fast_test :
      Query → Option (FastTerm F) → CompiledCondition F → Table F → List (Value F) → Option Bool
  fast_test q (some term) c t values = match_fast_term values term
  fast_test q none c t values =
      if length q.condition == 0 then some true else matches_fast c values t.positions

  unfoldable pub row_test : Query → CompiledCondition F → Row F → Bool
  row_test q c row = if length q.condition == 0 then true else matches_map c row

  module _ (ctx : Context) (lower : Text → Text) (ops : HeapOps (OrderEntry F))
      (sort : (OrderEntry F → OrderEntry F → Bool)
        → List (OrderEntry F)
        → List (OrderEntry F)) where
    -- the scan of the fast array, with what follows it
    unfoldable pub select_fast :
        Table F → Query → Option (FastTerm F) → CompiledCondition F → Answer (Lines F)
    unfolding fast_test is_zero
    select_fast t q term c =
        if is_zero q.limit
        then answer []
        else (fast_scan ctx (fast_test q term c t) q.names t.positions q.distinct
              (row_cap q.limit q.offset q.max_rows) t.fast 0 [] []
            >>= λ rows. cap_result_rows q.max_rows (apply_offset q.offset rows))

    -- from the collected keys on; `n` is the ticks that the scan took
    unfoldable pub order_found : Table F → Query → List Text → ℕ → Answer (List Text)
    order_found t q keys n =
        if length q.order_column == 0
        then answer keys
        else if ctx n
        then failed cancelled
        else in_range (
            order_keys ops sort t keys q.order_column q.descending
              (if q.distinct then none else row_cap q.limit q.offset q.max_rows))

    unfoldable pub finish_select : Table F → Query → List Text × ℕ → Answer (Lines F)
    unfolding order_found cut_keys materialize
    finish_select t q (found, n) = order_found t q found n >>= λ keys.
        materialize t q.names (row_cap q.limit q.offset q.max_rows)
          (cut_keys q.distinct (row_cap q.limit q.offset q.max_rows) keys) []
        >>= λ rows. cap_result_rows q.max_rows (apply_offset q.offset rows)

    unfoldable pub collect_cap : Query → Option ℕ
    collect_cap q = if length q.order_column == 0 then row_cap q.limit q.offset q.max_rows else none

    verify : Table F → Query → Text → Option (FastTerm F) → CompiledCondition F → Text → Answer Bool
    verify t q column (some term) c key = term_holds t column term key
    verify t q column none c key = row_matches t (matches_map c) key

    -- the scans that collect keys
    unfoldable pub select_indexed :
        Table F → Query → Text → Text → Option (FastTerm F) → CompiledCondition F → Answer (Lines F)
    unfolding verify collect_cap finish_select
    select_indexed t q column value term c =
        index_scan ctx (verify t q column term c) t q.names q.distinct (collect_cap q)
          (get_or (get (get_or (get t.indexes column) []) value) []) 0 [] []
        >>= finish_select t q

    unfoldable pub select_ordered : Table F → Query → CompiledCondition F → Answer (Lines F)
    unfolding row_test collect_cap finish_select
    select_ordered t q c =
        order_scan ctx (row_test q c) t q.names q.distinct (collect_cap q) t.order 0 [] []
        >>= finish_select t q

    -- the scan that the table and the WHERE call for
    unfoldable pub select_by :
        Table F
        → Query
        → Option (Text × Text)
        → Option (FastTerm F)
        → CompiledCondition F
        → Answer (Lines F)
    unfolding select_fast select_ordered select_indexed
    select_by t q simple term c =
        let plain : Answer (Lines F) =
          if ltb 0 (length t.fast) && length q.order_column == 0
          then select_fast t q term c
          else select_ordered t q c in
        elim simple [
          | none ↦ plain
          | some (column, value) ↦
              if has t.indexes column then select_indexed t q column value term c else plain
        ]

    -- the condition is compiled where a scan needs it
    unfoldable pub compile_where :
        Table F → Query → Option (FastTerm F) → Answer (CompiledCondition F)
    compile_where t q term =
        let compiled : Answer (CompiledCondition F) =
          elim (compile_condition lower q.condition t.columns) [
            | none ↦ failed invalid_where
            | some c ↦ answer c
          ] in
        if length q.condition == 0 then answer [] else elim term [
          | none ↦ compiled
          | some _ ↦ if length q.order_column == 0 then answer [] else compiled
        ]

    -- the terms for the fast array
    unfoldable pub fast_term_of : Table F → Query → Option (FastTerm F)
    fast_term_of t q = if length t.fast == 0 then none else simple_fast_term lower q.condition t

    scan_by : Table F → Query → Option (Text × Text) → Answer (Lines F)
    unfolding fast_term_of compile_where select_by
    scan_by t q simple =
        compile_where t q (fast_term_of t q) >>= λ c. select_by t q simple (fast_term_of t q) c

    unfoldable pub select_where : Table F → Query → Answer (Lines F)
    unfolding scan_by by_primary
    select_where t q = elim (simple_equality lower q.condition) [
      | none ↦ scan_by t q none
      | some (column, value) ↦
          let key = equality_key F t.columns column value in
          if text_eq column (primary_column t.columns)
          then answer (by_primary t q key)
          else scan_by t q (some (column, key))
    ]

    -- `selectRows`, from the lock on
    unfoldable pub select_rows : Table F → Query → Answer (Lines F)
    unfolding missing_column select_where
    select_rows t q =
        if not (length q.order_column == 0) && not (has_column t.columns q.order_column)
        then failed (no_order_column q.order_column)
        else elim (missing_column t q.names) [
          | some n ↦ failed (no_column n)
          | none ↦ select_where t q
        ]
