-- ===== src/Engine/Group/Having.antt =====
-- HAVING on a COUNT, whose value is an int where the condition expects an int64.
use super_db.Engine.Condition.{
  Op, all_map, condition_value_compare, matches_map, one, op_eq, op_gt, condition_value_equal,
  value_equal, compare_ordered, ordered_compare,
}
use super_db.Engine.Group.{GroupAccum, GroupItem, Slot, Sums, agg_count}
use super_db.Engine.Group.Result.{eval_of, put_aggs, put_groups, slot_value}
use super_db.Engine.Value.{
  Floats, Row, Value, cell, counted, int, value_less, text_less, mixed_less, numeric, sprint,
}
use super_db.Prelude.Map.{get-put, put}
use super_db.Prelude.Decimal.{pos, format_uint, format_int}
use super_db.Prelude.{
  ℕ, Text, List, false, ◌∷◌, [], ◌≡◌, refl, ap, ◌∙◌, arith, text_eq_iff, text_instance, Bool-cases,
  inl, inr,
}

module _ {F : Type 0} ⦃fl : Floats F⦄ (sums : Sums F) where
  cell-put : (eval : Row F) (name : Text) (v : Value F) → cell (put eval name v) name ≡ v
  cell-put eval name v = ground (arith, get-put eval name v name, text_eq_iff name name)

  cell-count :
      (group_by : List Text) (item : GroupItem) (g : GroupAccum F) (s : Slot F)
      (slots : List (Slot F))
      → item.kind ≡ agg_count
      → g.slots ≡ s ∷ slots
      → cell (eval_of sums group_by (item ∷ []) g) item.name ≡ counted s.count
  unfolding eval_of put_aggs slot_value
  cell-count group_by item g s slots counts e =
      rw (eval_of, e)
        (cell-put (put_groups sums group_by g.gvals []) item.name (slot_value sums item s)
          ∙ rw (slot_value, counts) refl)

  matches-one :
      (row : Row F) (name : Text) (v : Value F) (op : Op)
      → matches_map ((record { column = name; expected = one v; op = op } ∷ []) ∷ []) row
        ≡ condition_value_compare (cell row name) (one v) op
  unfolding matches_map all_map
  matches-one row name v op =
      elim (Bool-cases (condition_value_compare (cell row name) (one v) op)) [
        | inl b ↦ rw b refl
        | inr b ↦ rw b refl
      ]

  -- A HAVING that compares the only aggregate, a COUNT, with an integer: no group's count equals it,
  -- whatever it is, and a count is greater where the integer's decimal text comes before the count's.
  pub matches_map-count :
      (group_by : List Text) (item : GroupItem) (g : GroupAccum F) (s : Slot F)
      (slots : List (Slot F)) (n : ℕ)
      → item.kind ≡ agg_count
      → g.slots ≡ s ∷ slots
      → (matches_map
            ((record { column = item.name; expected = one (int (pos n)); op = op_eq } ∷ []) ∷ [])
            (eval_of sums group_by (item ∷ []) g)
          ≡ false)
        × (matches_map
              ((record { column = item.name; expected = one (int (pos n)); op = op_gt } ∷ []) ∷ [])
              (eval_of sums group_by (item ∷ []) g)
            ≡ text_less (format_uint n) (format_uint s.count))
  unfolding condition_value_compare condition_value_equal value_equal compare_ordered
      ordered_compare value_less mixed_less numeric sprint format_int
  matches_map-count group_by item g s slots n counts e =
      let here = cell-count group_by item g s slots counts e in
      let row = eval_of sums group_by (item ∷ []) g in
      (
        matches-one row item.name (int (pos n)) op_eq
            ∙ ap (λ (v : Value F). condition_value_compare v (one (int (pos n))) op_eq) here,
        matches-one row item.name (int (pos n)) op_gt
            ∙ ap (λ (v : Value F). condition_value_compare v (one (int (pos n))) op_gt) here,
      )
