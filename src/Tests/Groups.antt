-- ===== src/Tests/Groups.antt =====
-- GROUP BY and the parsers of INSERT at concrete tables.
use super_db.Engine.Condition.{matches_map, one, op_eq, op_gt}
use super_db.Engine.Group.{
  GroupAccum, GroupItem, Groups, Slot, accumulate, agg_count, arg_cell, arg_cells, cells,
  group_plain, new_accum, new_slot, plain_row, step_slot, step_slots,
}
use super_db.Engine.Group.Counted.{first_count, group_plain-count}
use super_db.Engine.Group.Gathered.{group_plain-own}
use super_db.Engine.Group.Having.{matches_map-count}
use super_db.Engine.Group.Own.{aggregate, own_rows, slots_at}
use super_db.Engine.Group.Result.{eval_of}
use super_db.Engine.Insert.{InsertRow, apply_insert_rows}
use super_db.Engine.Insert.Parse.{parse_insert_rows_mode, parsed}
use super_db.Engine.Insert.Parse.Batch.{insert_values-IsIndexed}
use super_db.Engine.Outcome.{background, tick}
use super_db.Engine.Select.{row_projection_key, type_tag}
use super_db.Engine.Select.Scan.{answer}
use super_db.Engine.Table.Frame.{IsIndexed}
use super_db.Engine.Table.Order.{IsOrdered}
use super_db.Engine.Value.{text, text_less, value_key, int, null}
use super_db.Prelude.Decimal.{format_uint, pos, parse_int, format_int}
use super_db.Prelude.Map.{get, has, put}
use super_db.Tests.Data.{
  ann, bob, every, nobody, nobody-IsIndexed, nobody-IsOrdered, settled, whole_floats,
}
use super_db.Tests.Selects.{naturals}
use super_db.Strings.{trim_space, undouble_quotes}
use super_db.Engine.Literal.{parse_val, is_null, unquote_literal, ends_with, inner}
use super_db.Prelude.{ℕ, Text, List, none, true, false, ◌∷◌, [], ◌≡◌, refl, codes, length, text_eq}

-- SELECT COUNT(*) FROM people GROUP BY city
abbrev count_star : GroupItem
count_star = record {
  name = codes "count(*)";
  is_agg = true;
  kind = agg_count;
  arg = codes "*";
  arg_index = none;
}

abbrev one_row : Text → GroupAccum ℕ
one_row city = record {
  gvals = text city ∷ [];
  slots = (record { count = 1; total = 0; ext = null }) ∷ [];
}

abbrev by_city : Groups naturals
by_city = (codes "s4:Oslo", one_row (codes "Oslo")) ∷ (codes "s4:Rome", one_row (codes "Rome")) ∷ []

grouped :
    group_plain naturals background every settled
      (count_star ∷ [])
      (codes "city" ∷ [])
      settled.order
      0
      []
    ≡ answer by_city
unfolding group_plain plain_row arg_cells arg_cell cells accumulate step_slots step_slot new_accum
    new_slot get put tick row_projection_key type_tag value_key format_uint text_eq
grouped = refl

group_plain-own_example :
    aggregate naturals settled.columns
      (count_star ∷ [])
      (codes "city" ∷ [])
      (new_accum naturals (count_star ∷ []) []).slots
      (own_rows naturals settled.columns
        (count_star ∷ [])
        (codes "city" ∷ [])
        every
        settled.rows
        settled.order
        (codes "s4:Oslo"))
    ≡ answer (
        slots_at naturals settled.columns
          (count_star ∷ [])
          (codes "city" ∷ [])
          by_city
          (codes "s4:Oslo"))
group_plain-own_example =
    group_plain-own naturals settled (count_star ∷ []) (codes "city" ∷ []) every by_city
      (codes "s4:Oslo") grouped

group_plain-count_example :
    first_count (
      slots_at naturals settled.columns
        (count_star ∷ [])
        (codes "city" ∷ [])
        by_city
        (codes "s4:Oslo"))
    ≡ length (
        own_rows naturals settled.columns
          (count_star ∷ [])
          (codes "city" ∷ [])
          every
          settled.rows
          settled.order
          (codes "s4:Oslo"))
group_plain-count_example =
    group_plain-count naturals settled count_star [] (codes "city" ∷ []) every by_city
      (codes "s4:Oslo") refl refl grouped

-- Ten rows in one group, and HAVING COUNT(*) = 9 or > 9
abbrev ten : Slot ℕ
ten = record { count = 10; total = 0; ext = null }

abbrev ten_rows : GroupAccum ℕ
ten_rows = record { gvals = text (codes "Oslo") ∷ []; slots = ten ∷ [] }

matches_map-count_example :
    (matches_map
        ((record { column = codes "count(*)"; expected = one (int (pos 9)); op = op_eq } ∷ []) ∷ [])
        (eval_of naturals (codes "city" ∷ []) (count_star ∷ []) ten_rows)
      ≡ false)
    × (matches_map
          ((record { column = codes "count(*)"; expected = one (int (pos 9)); op = op_gt } ∷ [])
            ∷ [])
          (eval_of naturals (codes "city" ∷ []) (count_star ∷ []) ten_rows)
        ≡ text_less (format_uint 9) (format_uint 10))
matches_map-count_example =
    matches_map-count naturals (codes "city" ∷ []) count_star ten_rows ten [] 9 refl refl

abbrev two_people : Text
two_people = codes "(1,'Oslo'),(2,'Rome')"

abbrev parsed_people : List (InsertRow ℕ)
parsed_people = record { key = codes "1"; row = ann } ∷ record { key = codes "2"; row = bob } ∷ []

people_parsed : parse_insert_rows_mode two_people nobody.columns false ≡ parsed parsed_people
unfolding parse_insert_rows_mode trim_space parse_val is_null text_eq parse_int value_key format_int
    has put unquote_literal ends_with undouble_quotes inner
people_parsed = refl

insert_values-IsIndexed_example :
    IsIndexed (apply_insert_rows background false nobody parsed_people).0
    × IsOrdered (apply_insert_rows background false nobody parsed_people).0
insert_values-IsIndexed_example =
    insert_values-IsIndexed ℕ nobody.columns false background nobody two_people parsed_people
      people_parsed nobody-IsIndexed nobody-IsOrdered
