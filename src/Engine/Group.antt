-- ===== src/Engine/Group.antt =====
-- internal/engine/group.go: the aggregates of a GROUP BY, and the scans that gather them.
pub mod Items
pub mod Result
pub mod Gathered
pub mod Having
pub mod Own
pub mod Counted
use super_db.Engine.Condition.{CompiledCondition, matches_fast, matches_map}
use super_db.Engine.Outcome.{Context, tick}
use super_db.Engine.Select.{row_projection_key}
use super_db.Engine.Select.Scan.{
  Answer, answer, failed, panicked, ◌>>=◌, in_range, cancelled, not_numeric,
}
use super_db.Engine.Table.{FastRow, Table}
use super_db.Engine.Value.{Floats, Value, Row, Column, cell, numeric, value_less, null}
use super_db.Prelude.Map.{Map, get, get_or, put}
use super_db.Prelude.{
  ℕ, Text, List, Bool, Option, none, some, true, false, ◌∷◌, [], ◌++◌, ◌+◌, not, if◌then◌else◌, map,
  text_eq, text_instance, get_elem?, ◌&&◌, ◌||◌,
}

-- `aggCount` to `aggAvg`
pub data AggKind : Type 0 where
  agg_count agg_sum agg_min agg_max agg_avg : AggKind

-- `groupItem`; an index of none is -1
pub record GroupItem : Type 0 where
  pub name : Text
  pub is_agg : Bool
  pub kind : AggKind
  pub arg : Text
  pub arg_index : Option ℕ

-- The additions of float64 that SUM and AVG use: 0, +, and the division by float64(count).
pub record Sums (F : Type 0) : Type 0 where
  pub zero_total : F
  pub plus : F → F → F
  pub over : F → ℕ → F

unfoldable pub is_null : {F : Type 0} → Value F → Bool
is_null null = true
is_null _ = false

-- One aggregate of a group: its entries in the slices `count`, `total` and `ext` of `groupAccum`
pub record Slot (F : Type 0) : Type 0 where
  pub count : ℕ
  pub total : F
  pub ext : Value F

pub record GroupAccum (F : Type 0) : Type 0 where
  pub gvals : List (Value F)
  pub slots : List (Slot F)

module _ {F : Type 0} ⦃fl : Floats F⦄ (sums : Sums F) where
  unfoldable pub new_slot : Slot F
  new_slot = record { count = 0; total = sums.zero_total; ext = null }

  add_number : Text → Slot F → Option F → Answer (Slot F)
  add_number name s none = failed (not_numeric name)
  add_number name s (some x) =
      answer (record s { count = s.count + 1; total = sums.plus s.total x })

  add_total : Text → Value F → Slot F → Answer (Slot F)
  unfolding add_number
  add_total name v s = if is_null v then answer s else add_number name s (numeric v)

  -- the switch of `accumulate`: one aggregate meets the value of its argument, nil for COUNT(*)
  unfoldable pub step_slot : GroupItem → Value F → Slot F → Answer (Slot F)
  unfolding is_null add_total
  step_slot item v s = elim item.kind [
    | agg_count ↦ elim item.arg_index [
      | none ↦ answer (record s { count = s.count + 1 })
      | some i ↦ answer (if is_null v then s else record s { count = s.count + 1 })
    ]
    | agg_sum ↦ add_total item.name v s
    | agg_avg ↦ add_total item.name v s
    | agg_min ↦ answer (
        if not (is_null v) && (is_null s.ext || value_less v s.ext)
        then record s { ext = v }
        else s)
    | agg_max ↦ answer (
        if not (is_null v) && (is_null s.ext || value_less s.ext v)
        then record s { ext = v }
        else s)
  ]

  unfoldable pub step_slots :
      List GroupItem → List (Value F) → List (Slot F) → Answer (List (Slot F))
  unfolding step_slot
  step_slots (item ∷ aggs) (v ∷ args) (s ∷ slots) =
      step_slot item v s >>= λ s'. step_slots aggs args slots >>= λ rest. answer (s' ∷ rest)
  step_slots aggs args slots = answer []

  unfoldable pub new_accum : List GroupItem → List (Value F) → GroupAccum F
  unfolding new_slot
  new_accum aggs gvals = record { gvals = gvals; slots = map (λ (a : GroupItem). new_slot) aggs }

  -- The groups in the order in which they were first seen: `groups` and `order` in one
  abbrev pub Groups : Type 0
  Groups = Map Text (GroupAccum F)

  -- `accumulate`: the values of the GROUP BY columns, and those of the aggregates' arguments
  unfoldable pub accumulate :
      List GroupItem → Groups → List (Value F) → List (Value F) → Answer Groups
  unfolding step_slots new_accum
  accumulate aggs groups gvals args =
      let key = row_projection_key gvals in
      let g : GroupAccum F = get_or (get groups key) (new_accum aggs gvals) in
      step_slots aggs args g.slots >>= λ slots. answer (put groups key (record g { slots = slots }))

  value_at : List (Value F) → Option ℕ → Answer (Value F)
  value_at values none = answer null
  value_at values (some i) = in_range (get_elem? values i)

  -- row.values[ci] for each index
  unfoldable pub values_at : List (Value F) → List (Option ℕ) → Answer (List (Value F))
  unfolding value_at
  values_at values [] = answer []
  values_at values (i ∷ indexes) =
      value_at values i >>= λ v. values_at values indexes >>= λ vs. answer (v ∷ vs)

  index_of : GroupItem → Option ℕ
  index_of item = item.arg_index

  unfoldable pub fast_row : List GroupItem → List ℕ → Groups → List (Value F) → Answer Groups
  unfolding index_of
  fast_row aggs indexes groups values = values_at values (map some indexes) >>= λ gvals.
      values_at values (map index_of aggs) >>= λ args. accumulate aggs groups gvals args

  -- the scan of the fast array; `test` is none where the condition panics
  unfoldable pub group_fast :
      Context
      → (List (Value F) → Option Bool)
      → List GroupItem
      → List ℕ
      → List (FastRow F)
      → ℕ
      → Groups
      → Answer Groups
  group_fast ctx test aggs indexes [] n groups = answer groups
  group_fast ctx test aggs indexes (r ∷ fast) n groups =
      let n' = (tick ctx n).0 in
      elim (tick ctx n).1 [
        | true ↦ failed cancelled
        | false ↦ elim (text_eq r.key []) [
          | true ↦ group_fast ctx test aggs indexes fast n' groups
          | false ↦ elim (test r.values) [
            | none ↦ panicked
            | some false ↦ group_fast ctx test aggs indexes fast n' groups
            | some true ↦ elim (fast_row aggs indexes groups r.values) [
              | failed e ↦ failed e
              | panicked ↦ panicked
              | answer after ↦ group_fast ctx test aggs indexes fast n' after
            ]
          ]
        ]
      ]

  -- row[t.Columns[idx].Name] for the argument of an aggregate
  unfoldable pub arg_cell : List Column → Row F → Option ℕ → Answer (Value F)
  arg_cell columns row none = answer null
  arg_cell columns row (some i) = elim (get_elem? columns i) [
    | none ↦ panicked
    | some c ↦ answer (cell row c.name)
  ]

  unfoldable pub arg_cells : List Column → Row F → List GroupItem → Answer (List (Value F))
  unfolding arg_cell
  arg_cells columns row [] = answer []
  arg_cells columns row (item ∷ aggs) = arg_cell columns row item.arg_index >>= λ v.
      arg_cells columns row aggs >>= λ vs. answer (v ∷ vs)

  unfoldable pub cells : Row F → List Text → List (Value F)
  cells row [] = []
  cells row (g ∷ names) = cell row g ∷ cells row names

  unfoldable pub plain_row :
      List Column → List GroupItem → List Text → Groups → Row F → Answer Groups
  unfolding arg_cells
  plain_row columns aggs group_by groups row =
      arg_cells columns row aggs >>= λ args. accumulate aggs groups (cells row group_by) args

  -- the scan of the order
  unfoldable pub group_plain :
      Context
      → (Row F → Bool)
      → Table F
      → List GroupItem
      → List Text
      → List Text
      → ℕ
      → Groups
      → Answer Groups
  group_plain ctx test t aggs group_by [] n groups = answer groups
  group_plain ctx test t aggs group_by (key ∷ order) n groups =
      let n' = (tick ctx n).0 in
      elim (tick ctx n).1 [
        | true ↦ failed cancelled
        | false ↦ elim (get t.rows key) [
          | none ↦ group_plain ctx test t aggs group_by order n' groups
          | some row ↦ elim (test row) [
            | false ↦ group_plain ctx test t aggs group_by order n' groups
            | true ↦ elim (plain_row t.columns aggs group_by groups row) [
              | failed e ↦ failed e
              | panicked ↦ panicked
              | answer after ↦ group_plain ctx test t aggs group_by order n' after
            ]
          ]
        ]
      ]
