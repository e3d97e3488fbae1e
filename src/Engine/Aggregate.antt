-- ===== src/Engine/Aggregate.antt =====
-- internal/engine/select.go: a SELECT of one aggregate: its expression and its loops.
pub mod Rebuilt
pub mod Result
use super_db.Engine.Condition.{CompiledCondition, matches_fast, matches_map}
use super_db.Engine.Condition.Parse.{compile_condition}
use super_db.Engine.Fold.{has_prefix_fold}
use super_db.Engine.Group.{Sums, is_null}
use super_db.Engine.Index.{Keys}
use super_db.Engine.Outcome.{Context, tick}
use super_db.Engine.Select.Scan.{
  Answer, answer, failed, panicked, ◌>>=◌, in_range, cancelled, fast_at, invalid_aggregate,
  invalid_where, no_column, not_numeric, row_holds, row_matches, unsupported_aggregate,
}
use super_db.Engine.Select.Term.{
  FastTerm, equality_key, match_fast_term, simple_equality, simple_fast_term,
}
use super_db.Engine.Table.{FastRow, Table}
use super_db.Engine.Value.{
  Floats, Row, Value, cell, counted, float, has_column, null, numeric, primary_column, value_less,
}
use super_db.Prelude.Map.{Map, get, get_or, has}
use super_db.Strings.{trim_space}
use super_db.Prelude.{
  ℕ, Text, List, Bool, Option, none, some, true, false, ◌∷◌, [], ◌+◌, ◌==◌, ◌&&◌, ◌||◌, not,
  if◌then◌else◌, codes, length, ltb, get_elem?, text_eq, text_instance,
}

-- What aggregateResult reads off the expression
pub record AggregateCall : Type 0 where
  pub name : Text
  pub column : Text
  pub is_count : Bool
  pub is_sum : Bool
  pub is_avg : Bool
  pub is_min : Bool
  pub is_max : Bool
  pub count_star : Bool

-- the texts behind the first opening parenthesis and before the last closing one
after_open : Text → Option Text
after_open [] = none
after_open (c ∷ s) = elim (c == 40) [ true ↦ some s | false ↦ after_open s ]

before_close : Text → Option Text
before_close [] = none
before_close (c ∷ s) = elim (before_close s) [
  | some inner ↦ some (c ∷ inner)
  | none ↦ if c == 41 then some [] else none
]

between : Option Text → Option Text
unfolding before_close
between none = none
between (some s) = before_close s

-- `lower` is strings.ToLower.
call_with : (Text → Text) → Text → Text → AggregateCall
call_with lower expression column =
    let trimmed = trim_space expression in
    let count = has_prefix_fold trimmed (codes "COUNT(") in
    record {
      name = lower trimmed;
      column = column;
      is_count = count;
      is_sum = has_prefix_fold trimmed (codes "SUM(");
      is_avg = has_prefix_fold trimmed (codes "AVG(");
      is_min = has_prefix_fold trimmed (codes "MIN(");
      is_max = has_prefix_fold trimmed (codes "MAX(");
      count_star = count && text_eq column (codes "*");
    }

-- `isAggregate`
unfoldable pub is_aggregate : Text → Bool
is_aggregate expression =
    let trimmed = trim_space expression in
    has_prefix_fold trimmed (codes "COUNT(")
    || (has_prefix_fold trimmed (codes "SUM(")
        || (has_prefix_fold trimmed (codes "MIN(")
            || (has_prefix_fold trimmed (codes "MAX(") || has_prefix_fold trimmed (codes "AVG("))))

-- the variables of the loops
pub record AggregateState (F : Type 0) : Type 0 where
  pub count : ℕ
  pub total : F
  pub min_value : Value F
  pub max_value : Value F

module _ {F : Type 0} ⦃fl : Floats F⦄ where
  -- from the expression to its column, with the checks before the WHERE
  unfoldable pub call_of : (Text → Text) → Table F → Text → Answer AggregateCall
  unfolding after_open between call_with
  call_of lower t expression = elim (between (after_open expression)) [
    | none ↦ failed invalid_aggregate
    | some inner ↦
        let call = call_with lower expression (lower (trim_space inner)) in
        let is_star = text_eq call.column (codes "*") in
        if is_star && not call.count_star
        then failed invalid_aggregate
        else if not is_star && not (has_column t.columns call.column)
        then failed (no_column call.column)
        else answer call
  ]

  module _ (sums : Sums F) where
    add_number : Text → AggregateState F → Option F → Answer (AggregateState F)
    add_number name st none = failed (not_numeric name)
    add_number name st (some x) = answer (record st { total = sums.plus st.total x })

    -- the switch on a value that is not nil
    meet_value : AggregateCall → Value F → AggregateState F → Answer (AggregateState F)
    unfolding add_number is_null
    meet_value call v st =
        if call.is_sum || call.is_avg
        then add_number call.name st (numeric v)
        else if call.is_min
        then answer (
            if is_null st.min_value || value_less v st.min_value
            then record st { min_value = v }
            else st)
        else if call.is_max
        then answer (
            if is_null st.max_value || value_less st.max_value v
            then record st { max_value = v }
            else st)
        else answer st

    -- what the loops do with a row that the WHERE holds for; `value` is not read for COUNT(*)
    unfoldable pub meet :
        AggregateCall → Answer (Value F) → AggregateState F → Answer (AggregateState F)
    unfolding meet_value is_null
    meet call value st =
        if call.count_star
        then answer (record st { count = st.count + 1 })
        else (value >>= λ v.
            if is_null v then answer st else meet_value call v (record st { count = st.count + 1 }))

    unfoldable pub value_in : List (Value F) → Option ℕ → Answer (Value F)
    value_in values none = answer null
    value_in values (some i) = in_range (get_elem? values i)

    -- the loop over the fast array; a column that is not there is read for COUNT(*) only, and then not
    unfoldable pub aggregate_fast :
        Context
        → (List (Value F) → Option Bool)
        → AggregateCall
        → Option ℕ
        → List (FastRow F)
        → ℕ
        → AggregateState F
        → Answer (AggregateState F)
    unfolding value_in
    aggregate_fast ctx test call index [] n st = answer st
    aggregate_fast ctx test call index (r ∷ fast) n st =
        let n' = (tick ctx n).0 in
        elim (tick ctx n).1 [
          | true ↦ failed cancelled
          | false ↦ elim (text_eq r.key []) [
            | true ↦ aggregate_fast ctx test call index fast n' st
            | false ↦ elim (test r.values) [
              | none ↦ panicked
              | some false ↦ aggregate_fast ctx test call index fast n' st
              | some true ↦ elim (meet call (value_in r.values index) st) [
                | failed e ↦ failed e
                | panicked ↦ panicked
                | answer after ↦ aggregate_fast ctx test call index fast n' after
              ]
            ]
          ]
        ]

    -- the loop over the order
    unfoldable pub aggregate_plain :
        Context
        → (Row F → Bool)
        → AggregateCall
        → Map Text (Row F)
        → List Text
        → ℕ
        → AggregateState F
        → Answer (AggregateState F)
    aggregate_plain ctx test call rows [] n st = answer st
    aggregate_plain ctx test call rows (key ∷ order) n st =
        let n' = (tick ctx n).0 in
        elim (tick ctx n).1 [
          | true ↦ failed cancelled
          | false ↦ elim (get rows key) [
            | none ↦ aggregate_plain ctx test call rows order n' st
            | some row ↦ elim (test row) [
              | false ↦ aggregate_plain ctx test call rows order n' st
              | true ↦ elim (meet call (answer (cell row call.column)) st) [
                | failed e ↦ failed e
                | panicked ↦ panicked
                | answer after ↦ aggregate_plain ctx test call rows order n' after
              ]
            ]
          ]
        ]
