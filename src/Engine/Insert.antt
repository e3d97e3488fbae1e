-- ===== src/Engine/Insert.antt =====
-- internal/engine/insert.go: `applyInsertRows`, the shared tail of INSERT and INSERT OR REPLACE.
pub mod Refused
pub mod Synthetic
pub mod Keeps
pub mod Indexed
pub mod Ordered
pub mod Parse
use super_db.Engine.Index.{add_row, remove_row}
use super_db.Prelude.Map.{Map, get, put, has}
use super_db.Prelude.{
  Text, Bool, ℕ, List, Option, if◌then◌else◌, some, ◌++◌, none, text_eq, ◌∷◌, [], text_instance,
  ltb, not, suc, length, ◌&&◌, ◌||◌,
}
use super_db.Engine.Value.{Floats, Row}
use super_db.Engine.Outcome.{
  Outcome, ok, Context, Failure, fail, out_of_fuel, tick, cancelled, duplicate_primary_key,
}
use super_db.Engine.Table.{Table, append_fast_row, replace_fast_row, next_synthetic_key, reclaim}

pub record InsertRow (F : Type 0) : Type 0 where
  pub key : Text
  pub row : Row F

module _ {F : Type 0} where
  -- the duplicate check, against the table and within the batch
  unfoldable pub check_batch :
      Context → Map Text (Row F) → List (InsertRow F) → ℕ → Map Text (Unit {0}) → Option Failure
  check_batch ctx rows [] at batch = none
  check_batch ctx rows (item ∷ items) at batch =
      let (at', stop) = tick ctx at in
      let next =
        check_batch ctx rows items at'
          (if text_eq item.key [] then batch else put batch item.key tt) in
      if stop
      then some cancelled
      else if not (text_eq item.key []) && (has rows item.key || has batch item.key)
      then some duplicate_primary_key
      else next

module _ {F : Type 0} ⦃fl : Floats F⦄ where
  unfoldable pub add_new : Table F → Text → Row F → Table F
  add_new t key row =
      append_fast_row
        (record t {
          rows = put t.rows key row;
          order = t.order ++ (key ∷ []);
          indexes = add_row t.indexes row key;
        })
        key row

  unfoldable pub replace_row : Table F → Text → Row F → Row F → Table F
  replace_row t key old row =
      replace_fast_row
        (record t {
          indexes = add_row (remove_row t.indexes old key) row key;
          rows = put t.rows key row;
        })
        key row

  -- A row with a key: an upsert where `replace` is set and the key has a row.
  unfoldable pub store_row : Bool → Table F → Text → Row F → Table F
  unfolding add_new replace_row
  store_row replace t key row = elim (get t.rows key) [
    | none ↦ add_new t key row
    | some old ↦ if replace then replace_row t key old row else add_new t key row
  ]

  -- A row with no key gets a synthetic one. There is a free one among the first `length rows + 1`.
  unfoldable pub insert_row : Bool → Table F → InsertRow F → Option (Table F)
  unfolding store_row
  insert_row replace t item =
      if text_eq item.key []
      then elim (next_synthetic_key (suc (length t.rows)) t.rows t.auto_key) [
        | none ↦ none
        | some (key, next) ↦ some (store_row replace (record t { auto_key = next }) key item.row)
      ]
      else some (store_row replace t item.key item.row)

  unfoldable pub insert_rows : Bool → Table F → List (InsertRow F) → Option (Table F)
  unfolding insert_row
  insert_rows replace t [] = some t
  insert_rows replace t (item ∷ items) = elim (insert_row replace t item) [
    | none ↦ none
    | some t' ↦ insert_rows replace t' items
  ]

  abbrev pub finish : Table F → ℕ → Option (Table F) → Table F × Outcome
  finish t n none = (t, fail out_of_fuel)
  finish t n (some t') = (t', ok n)

  unfoldable pub apply_insert_rows :
      Context → Bool → Table F → List (InsertRow F) → Table F × Outcome
  unfolding insert_rows
  apply_insert_rows ctx replace t items =
      let checked : Option Failure = if replace then none else check_batch ctx t.rows items 0 [] in
      let t' = if ltb 0 t.dead then reclaim t else t in
      elim checked [
        | some e ↦ (t, fail e)
        | none ↦ finish t (length items) (insert_rows replace t' items)
      ]
