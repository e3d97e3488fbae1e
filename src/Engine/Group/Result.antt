-- ===== src/Engine/Group/Result.antt =====
-- internal/engine/group.go: groupedResult, from the groups to the rows of the result.
use super_db.Engine.Condition.{CompiledCondition, matches_fast, matches_map}
use super_db.Engine.Condition.Parse.{compile_condition}
use super_db.Engine.Group.{
  GroupAccum, GroupItem, Groups, Slot, Sums, agg_count, agg_sum, agg_min, agg_max, agg_avg,
  group_fast, group_plain,
}
use super_db.Engine.Group.Items.{aggs_of, items_of, split_select_list}
use super_db.Engine.Outcome.{Context}
use super_db.Engine.Select.{Seen, add_line, apply_offset}
use super_db.Engine.Select.Rows.{Query, cap_result_rows}
use super_db.Engine.Select.Scan.{
  Answer, Lines, answer, failed, ◌>>=◌, in_range, invalid_having, invalid_where, no_column,
  no_order_column,
}
use super_db.Engine.Table.{Table, number_columns}
use super_db.Engine.Value.{
  Column, ColumnType, Floats, Row, Value, cell, counted, float, float_type, has_column, int_type,
  null, value_less,
}
use super_db.Prelude.Map.{Map, get, put}
use super_db.Prelude.{
  ℕ, Text, List, Bool, Option, none, some, true, false, ◌∷◌, [], ◌+◌, not, if◌then◌else◌, length,
  ltb, take, ◌==◌, text_instance, get_elem?,
}

-- What follows the select list: `selectTail`, with the query's names unused
pub record Grouping : Type 0 where
  pub select_list : Text
  pub group_by : List Text
  pub having : Text
  pub query : Query

-- `outRow`
pub record OutRow (F : Type 0) : Type 0 where
  pub eval : Row F
  pub line : List (Value F)
  pub seq : ℕ

-- `gIdx`
indexes_of : Map Text ℕ → List Text → Answer (List ℕ)
indexes_of col_index [] = answer []
indexes_of col_index (g ∷ names) = elim (get col_index g) [
  | none ↦ failed (no_column g)
  | some i ↦ indexes_of col_index names >>= λ rest. answer (i ∷ rest)
]

-- `groupCol`
group_columns : List Text → Map Text Bool
group_columns [] = []
group_columns (g ∷ names) = put (group_columns names) g true

type_at : List Column → Option ℕ → Answer ColumnType
type_at columns none = answer int_type
type_at columns (some i) = in_range (get_elem? columns i) >>= λ c. answer c.type

agg_type : List Column → GroupItem → Answer ColumnType
unfolding type_at
agg_type columns item = elim item.kind [
  | agg_count ↦ answer int_type
  | agg_sum ↦ answer float_type
  | agg_avg ↦ answer float_type
  | agg_min ↦ type_at columns item.arg_index
  | agg_max ↦ type_at columns item.arg_index
]

agg_columns : List Column → List GroupItem → Answer (List Column)
unfolding agg_type
agg_columns columns [] = answer []
agg_columns columns (item ∷ aggs) = agg_type columns item >>= λ typ.
    agg_columns columns aggs >>= λ rest.
    answer (record { name = item.name; type = typ; primary = false } ∷ rest)

-- `synthCols`
synth_columns : List Column → Map Text ℕ → List Text → List GroupItem → Answer (List Column)
unfolding agg_columns type_at
synth_columns columns col_index [] aggs = agg_columns columns aggs
synth_columns columns col_index (g ∷ names) aggs = type_at columns (get col_index g) >>= λ typ.
    synth_columns columns col_index names aggs >>= λ rest.
    answer (record { name = g; type = typ; primary = false } ∷ rest)

module _ {F : Type 0} ⦃fl : Floats F⦄ (sums : Sums F) where
  -- an aggregate's value; that of COUNT is an int, and not an int64 as in a row
  unfoldable pub slot_value : GroupItem → Slot F → Value F
  slot_value item s = elim item.kind [
    | agg_count ↦ counted s.count
    | agg_sum ↦ float s.total
    | agg_avg ↦ if ltb 0 s.count then float (sums.over s.total s.count) else null
    | agg_min ↦ s.ext
    | agg_max ↦ s.ext
  ]

  unfoldable pub put_groups : List Text → List (Value F) → Row F → Row F
  put_groups (g ∷ names) (v ∷ gvals) eval = put_groups names gvals (put eval g v)
  put_groups _ _ eval = eval

  unfoldable pub put_aggs : List GroupItem → List (Slot F) → Row F → Row F
  unfolding slot_value
  put_aggs (item ∷ aggs) (s ∷ slots) eval =
      put_aggs aggs slots (put eval item.name (slot_value item s))
  put_aggs _ _ eval = eval

  -- the synthetic row of a group
  unfoldable pub eval_of : List Text → List GroupItem → GroupAccum F → Row F
  unfolding put_groups put_aggs
  eval_of group_by aggs g = put_aggs aggs g.slots (put_groups group_by g.gvals [])

  unfoldable pub line_of_items : List GroupItem → Row F → List (Value F)
  line_of_items [] eval = []
  line_of_items (item ∷ items) eval =
      cell eval (if item.is_agg then item.name else item.arg) ∷ line_of_items items eval

  -- the loop that makes the rows; a `having` of none is no HAVING
  unfoldable pub out_rows :
      List Text → List GroupItem → Option (CompiledCondition F) → Groups sums → ℕ → List (OutRow F)
  unfolding eval_of line_of_items
  out_rows group_by items having [] seq = []
  out_rows group_by items having ((_, g) ∷ groups) seq =
      let eval = eval_of group_by (aggs_of items) g in
      let rest = out_rows group_by items having groups (seq + 1) in
      let kept = record { eval = eval; line = line_of_items items eval; seq = seq } ∷ rest in
      elim having [ none ↦ kept | some c ↦ if matches_map c eval then kept else rest ]

  -- the order of ORDER BY
  unfoldable pub row_before : Text → Bool → OutRow F → OutRow F → Bool
  row_before column descending a b =
      let x : Value F = cell a.eval column in
      let y : Value F = cell b.eval column in
      if value_less x y
      then not descending
      else if value_less y x
      then descending
      else ltb a.seq b.seq

  -- `sort` is sort.Slice.
  order_out :
      ((OutRow F → OutRow F → Bool) → List (OutRow F) → List (OutRow F))
      → List Column
      → Query
      → List (OutRow F)
      → Answer (List (OutRow F))
  unfolding row_before
  order_out sort columns q out =
      if length q.order_column == 0
      then answer out
      else if has_column columns q.order_column
      then answer (sort (row_before q.order_column q.descending) out)
      else failed (no_order_column q.order_column)

  -- the loop that leaves out what DISTINCT has seen
  distinct_out : Bool → Seen → Lines F → List (OutRow F) → Lines F
  distinct_out distinct seen rows [] = rows
  distinct_out distinct seen rows (e ∷ out) =
      let next = add_line distinct seen rows e.line in distinct_out distinct next.0 next.1 out

  cut_limit : Option ℕ → Lines F → Lines F
  cut_limit none rows = rows
  cut_limit (some n) rows = if ltb n (length rows) then take n rows else rows

  compile_having : (Text → Text) → Text → List Column → Answer (Option (CompiledCondition F))
  compile_having lower having columns =
      if length having == 0 then answer none else elim (compile_condition lower having columns) [
        | none ↦ failed invalid_having
        | some c ↦ answer (some c)
      ]

  module _ (ctx : Context) (lower raise : Text → Text)
      (sort : (OutRow F → OutRow F → Bool) → List (OutRow F) → List (OutRow F)) where
    -- from the groups on
    unfoldable pub finish_groups :
        Table F → Grouping → List GroupItem → Groups sums → Answer (Lines F)
    unfolding synth_columns compile_having order_out distinct_out cut_limit
    finish_groups t g items groups =
        synth_columns t.columns (number_columns 0 t.columns []) g.group_by (aggs_of items)
        >>= λ columns. compile_having lower g.having columns >>= λ having.
            order_out sort columns g.query (out_rows g.group_by items having groups 0) >>= λ out.
            cap_result_rows g.query.max_rows (
              cut_limit g.query.limit
                (apply_offset g.query.offset (distinct_out g.query.distinct [] [] out)))

    -- the scan that the table has
    unfoldable pub scan_groups :
        Table F → Grouping → List GroupItem → List ℕ → CompiledCondition F → Answer (Groups sums)
    scan_groups t g items indexes c =
        if ltb 0 (length t.fast)
        then group_fast sums ctx
            (λ values.
              if length g.query.condition == 0
              then some true
              else matches_fast c values t.positions)
            (aggs_of items) indexes t.fast 0 []
        else group_plain sums ctx
            (λ row. if length g.query.condition == 0 then true else matches_map c row) t
            (aggs_of items) g.group_by t.order 0 []

    -- `groupedResult`
    unfoldable pub grouped_result : Table F → Grouping → Answer (Lines F)
    unfolding indexes_of group_columns finish_groups scan_groups
    grouped_result t g =
        let col_index = number_columns 0 t.columns [] in
        indexes_of col_index g.group_by >>= λ indexes.
        items_of lower raise col_index (group_columns g.group_by) (split_select_list g.select_list)
        >>= λ items. elim (compile_condition lower g.query.condition t.columns) [
          | none ↦ failed invalid_where
          | some c ↦ scan_groups t g items indexes c >>= finish_groups t g items
        ]
