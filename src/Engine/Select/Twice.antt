-- ===== src/Engine/Select/Twice.antt =====
-- SELECT after an UPDATE that has moved a row to the key of a deleted one.
use super_db.Engine.Condition.{CompiledCondition}
use super_db.Engine.Order.{HeapOps, OrderEntry}
use super_db.Engine.Outcome.{background}
use super_db.Engine.Select.{max_int}
use super_db.Engine.Select.Found.{distinct_lines, found_lines}
use super_db.Engine.Select.Once.{no_bounds, no_limit}
use super_db.Engine.Select.Plain.{select_ordered-page}
use super_db.Engine.Select.Rows.{Query, row_test, select_ordered}
use super_db.Engine.Select.Scan.{Lines, answer}
use super_db.Engine.Table.{Table, rekey_fast_row}
use super_db.Engine.Table.Frame.{SameView-rekey_fast_row}
use super_db.Engine.Table.Order.{IsOrdered, occurs}
use super_db.Engine.Update.{move_row, rekey_primary}
use super_db.Engine.Update.Ordered.{ne_of_has, rekey_primary_tombstone}
use super_db.Engine.Value.{Floats, Row, Value, primary_column, value_key}
use super_db.Prelude.Map.{Map, get, get-put, has, put, remove}
use super_db.Prelude.{
  Text, List, Bool, none, some, true, false, ◌∷◌, [], ◌≡◌, ◌≤◌, refl, ap, ◌∙◌, arith, length,
  text_eq_iff, text_instance,
}

module _ {F : Type 0} ⦃fl : Floats F⦄ where
  -- Each time that a row's key stands in the scan order, the scan finds the row.
  occurs-found_lines :
      (test : Row F → Bool) (names : List Text) (rows : Map Text (Row F)) (key : Text) (row : Row F)
      → get rows key ≡ some row
      → test row ≡ true
      → (order : List Text) → occurs key order ≤ length (found_lines test names rows order)
  unfolding occurs found_lines
  occurs-found_lines test names rows key row e h [] = omega arith
  occurs-found_lines test names rows key row e h (k ∷ order) = ground (
    arith,
    e,
    h,
    text_eq_iff k key,
    text_eq_iff key k,
    occurs-found_lines test names rows key row e h order,
  )

  -- the row that a change of the primary key leaves
  abbrev pub moved : Table F → Row F → Value F → Row F
  moved t row value = put row (primary_column t.columns) value

  rekey_fast_row-none :
      (t : Table F) (old_key new_key : Text) (value : Value F)
      → t.fast ≡ []
      → rekey_fast_row t old_key new_key value ≡ t
  unfolding rekey_fast_row
  rekey_fast_row-none t old_key new_key value e = rw e refl

  get-move_row :
      (t : Table F) (old_key new_key : Text) (row : Row F) (value : Value F)
      → get (move_row t old_key new_key row value).rows new_key ≡ some (moved t row value)
  unfolding move_row
  get-move_row t old_key new_key row value =
      rw ((SameView-rekey_fast_row _ old_key new_key value).rows) (
        ground (
          arith,
          text_eq_iff new_key new_key,
          get-put (remove t.rows old_key) new_key (moved t row value) new_key,
        ))

  fast-move_row :
      (t : Table F) (old_key new_key : Text) (row : Row F) (value : Value F)
      → t.fast ≡ []
      → (move_row t old_key new_key row value).fast ≡ []
  unfolding move_row
  fast-move_row t old_key new_key row value e =
      ap (λ (u : Table F). u.fast) (rekey_fast_row-none _ old_key new_key value e) ∙ e

  rekey_primary-moved :
      (t : Table F) (old_key : Text) (row : Row F) (value : Value F)
      → get t.rows old_key ≡ some row
      → has t.rows (value_key value) ≡ false
      → t.fast ≡ []
      → (get (rekey_primary t old_key row value).0.rows (value_key value)
          ≡ some (moved t row value))
        × ((rekey_primary t old_key row value).0.fast ≡ [])
  unfolding rekey_primary
  rekey_primary-moved t old_key row value e free no_fast =
      let here : has t.rows old_key ≡ true = unfold has in rw e refl in
      let moves = ne_of_has t.rows (value_key value) old_key free here in
      rw (moves, free)
        (
          get-move_row t old_key (value_key value) row value,
          fast-move_row t old_key (value_key value) row value no_fast,
        )

  -- Where the key of a deleted row still stands in the scan order, an UPDATE that moves a row to this key has
  -- the effect that a SELECT whose WHERE holds for the moved row answers with two lines or more, however few
  -- rows the WHERE holds for. The SELECT is one without DISTINCT, ORDER BY, LIMIT, OFFSET and MaxRows that scans
  -- the rows of a table without a fast array, and the scan order's length is an int.
  pub select_ordered-rekeyed :
      (lower : Text → Text) (ops : HeapOps (OrderEntry F))
      (sort : (OrderEntry F → OrderEntry F → Bool) → List (OrderEntry F) → List (OrderEntry F))
      (t : Table F) (old_key : Text) (row : Row F) (value : Value F) (q : Query)
      (c : CompiledCondition F)
      → IsOrdered t
      → t.fast ≡ []
      → get t.rows old_key ≡ some row
      → has t.rows (value_key value) ≡ false
      → occurs (value_key value) t.order ≡ 1
      → q.order_column ≡ []
      → q.distinct ≡ false
      → q.limit ≡ none
      → q.offset ≡ 0
      → q.max_rows ≡ 0
      → row_test q c (moved t row value) ≡ true
      → length (rekey_primary t old_key row value).0.order ≤ max_int
      → (lines : Lines F) × (select_ordered background lower ops sort
            (rekey_primary t old_key row value).0
            q
            c
          ≡ answer lines)
        × (2 ≤ length lines)
  select_ordered-rekeyed lower ops sort t old_key row value q c h no_fast e free stale unordered d l
        o m meets fit =
      let u = (rekey_primary t old_key row value).0 in
      let found = found_lines (row_test q c) q.names u.rows u.order in
      let (there, bare) = rekey_primary-moved t old_key row value e free no_fast in
      let (held, twice) = rekey_primary_tombstone t old_key row value h e free stale in
      (
        distinct_lines false [] found,
        select_ordered-page lower ops sort u q c bare unordered (no_limit q l) (omega (arith, o))
              (omega (arith, m)) fit
            ∙ no_bounds q found false d l o m,
        unfold distinct_lines in
            omega (
              arith,
              twice,
              occurs-found_lines (row_test q c) q.names u.rows (value_key value) (moved t row value)
                  there meets u.order,
            ),
      )
