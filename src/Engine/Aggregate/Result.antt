-- ===== src/Engine/Aggregate/Result.antt =====
-- internal/engine/select.go: the value of an aggregate, and the counts that it takes from the maps.
use super_db.Engine.Aggregate.{
  AggregateCall, AggregateState, aggregate_fast, aggregate_plain, call_of,
}
use super_db.Engine.Condition.{CompiledCondition, matches_fast, matches_map}
use super_db.Engine.Condition.Parse.{compile_condition}
use super_db.Engine.Group.{Sums}
use super_db.Engine.Index.{Keys}
use super_db.Engine.Outcome.{Context, tick}
use super_db.Engine.Select.Scan.{
  Answer, answer, failed, panicked, ◌>>=◌, in_range, cancelled, fast_at, invalid_where, no_column,
  row_holds, row_matches, unsupported_aggregate,
}
use super_db.Engine.Select.Term.{
  FastTerm, equality_key, match_fast_term, simple_equality, simple_fast_term,
}
use super_db.Engine.Table.{Table}
use super_db.Engine.Value.{Floats, Value, counted, float, null, primary_column}
use super_db.Prelude.Map.{get, get_or, has}
use super_db.Prelude.{
  ℕ, Text, List, Bool, Option, none, some, true, false, ◌∷◌, [], ◌+◌, ◌==◌, ◌&&◌, not,
  if◌then◌else◌, codes, length, ltb, text_eq, text_instance,
}

module _ {F : Type 0} ⦃fl : Floats F⦄ (sums : Sums F) where
  -- the value of the result
  unfoldable pub finish_aggregate : AggregateCall → AggregateState F → Answer (Value F)
  finish_aggregate call st =
      if call.is_sum
      then answer (float st.total)
      else if call.is_avg
      then answer (if st.count == 0 then null else float (sums.over st.total st.count))
      else if call.is_min
      then answer st.min_value
      else if call.is_max
      then answer st.max_value
      else if call.is_count
      then answer (counted st.count)
      else failed unsupported_aggregate

  -- how a candidate of the index is verified
  verify_count : Table F → Text → Option (FastTerm F) → CompiledCondition F → Text → Answer Bool
  verify_count t column none c key = row_matches t (matches_map c) key
  verify_count t column (some term) c key = elim (fast_at t key) [
    | none ↦ row_holds t column term key
    | some r ↦ in_range (match_fast_term r.values term)
  ]

  -- the loop of `countIndexEquality`
  count_keys : Context → (Text → Answer Bool) → Keys → ℕ → ℕ → Answer ℕ
  count_keys ctx holds [] n count = answer count
  count_keys ctx holds ((key, _) ∷ bucket) n count = elim (tick ctx n).1 [
    | true ↦ failed cancelled
    | false ↦ elim (holds key) [
      | failed e ↦ failed e
      | panicked ↦ panicked
      | answer b ↦ count_keys ctx holds bucket (tick ctx n).0 (if b then count + 1 else count)
    ]
  ]

  -- `countIndexEquality`
  unfoldable pub count_index_equality :
      Context → Table F → Text → Text → Option (FastTerm F) → CompiledCondition F → Answer ℕ
  unfolding verify_count count_keys
  count_index_equality ctx t column value term c =
      count_keys ctx (verify_count t column term c)
        (get_or (get (get_or (get t.indexes column) []) value) []) 0 0

  module _ (ctx : Context) (lower : Text → Text) where
    unfoldable pub start_state : AggregateState F
    start_state = record { count = 0; total = sums.zero_total; min_value = null; max_value = null }

    unfoldable pub fast_holds :
        Table F → Text → Option (FastTerm F) → CompiledCondition F → List (Value F) → Option Bool
    fast_holds t condition term c values = if length condition == 0 then some true else elim term [
      | some found ↦ match_fast_term values found
      | none ↦ matches_fast c values t.positions
    ]

    -- the loop that the table has, and the value
    unfoldable pub scan_aggregate :
        Table F → AggregateCall → Text → CompiledCondition F → Answer (Value F)
    unfolding start_state fast_holds
    scan_aggregate t call condition c =
        (if ltb 0 (length t.fast)
          then (if not (text_eq call.column (codes "*")) && not (has t.positions call.column)
              then failed (no_column call.column)
              else aggregate_fast sums ctx
                  (fast_holds t condition (simple_fast_term lower condition t) c) call
                  (get t.positions call.column) t.fast 0 start_state)
          else aggregate_plain sums ctx
              (λ row. if length condition == 0 then true else matches_map c row) call t.rows t.order
              0 start_state)
        >>= finish_aggregate call

    count_answer : Answer ℕ → Answer (Value F)
    count_answer n = n >>= λ count. answer (counted count)

    -- the shortcuts of COUNT(*), and the scan
    unfoldable pub count_or_scan :
        Table F → AggregateCall → Text → CompiledCondition F → Answer (Value F)
    unfolding scan_aggregate count_answer
    count_or_scan t call condition c =
        let scanned = scan_aggregate t call condition c in
        if not call.count_star
        then scanned
        else if length condition == 0
        then answer (counted (length t.rows))
        else elim (simple_equality lower condition) [
          | none ↦ scanned
          | some (column, value) ↦
              let key = equality_key F t.columns column value in
              if text_eq column (primary_column t.columns)
              then answer (counted (if has t.rows key then 1 else 0))
              else if has t.indexes column
              then count_answer
                  (count_index_equality ctx t column key (simple_fast_term lower condition t) c)
              else scanned
        ]

    -- `aggregateResult`, the one value of its one row
    unfoldable pub aggregate_result : Table F → Text → Text → Answer (Value F)
    unfolding count_or_scan
    aggregate_result t expression condition = call_of lower t expression >>= λ call.
        elim (compile_condition lower condition t.columns) [
          | none ↦ failed invalid_where
          | some c ↦ count_or_scan t call condition c
        ]
