-- ===== src/Engine/Update.antt =====
-- internal/engine/update.go: UPDATE on a table, once SET and WHERE are parsed. `hit` is
-- `wc == "" || matchWhereOp(row[wc], wv, expected, wop)`.
pub mod Indexed
pub mod Ordered
use super_db.Engine.Index.{add_index_value, remove_index_value, add_row, remove_row}
use super_db.Prelude.Map.{Map, get, put, remove, has}
use super_db.Prelude.{
  List, Bool, Text, ◌∷◌, if◌then◌else◌, ℕ, text_eq, ◌&&◌, not, [], text_instance, false, none, some,
  true, ◌+◌,
}
use super_db.Engine.Value.{Floats, Row, Value, primary_column, value_key, cell}
use super_db.Engine.Outcome.{Outcome, ok, Context, tick, fail, duplicate_primary_key, cancelled}
use super_db.Engine.Table.{Table, update_fast_row, rekey_fast_row}

-- if k == oldKey { t.Order[i] = newKey; break }
unfoldable pub rename_first : List Text → Text → Text → List Text
rename_first [] old new = []
rename_first (k ∷ ks) old new = if text_eq k old then new ∷ ks else k ∷ rename_first ks old new

module _ {F : Type 0} ⦃fl : Floats F⦄ where
  -- row[col] = v, with the postings of that column moved
  unfoldable pub set_cell : Table F → Text → Row F → Text → Value F → Table F
  set_cell t key row column value =
      update_fast_row
        (record t {
          rows = put t.rows key (put row column value);
          indexes =
              add_index_value
                (remove_index_value t.indexes column (value_key (cell row column)) key) column
                (value_key value) key;
        })
        key column value

  unfoldable pub move_row : Table F → Text → Text → Row F → Value F → Table F
  move_row t old_key new_key row value =
      let row' = put row (primary_column t.columns) value in
      rekey_fast_row
        (record t {
          rows = put (remove t.rows old_key) new_key row';
          order = rename_first t.order old_key new_key;
          indexes = add_row (remove_row t.indexes row old_key) row' new_key;
        })
        old_key new_key value

  -- `row` is t.Rows[oldKey], which every caller has found.
  unfoldable pub rekey_primary : Table F → Text → Row F → Value F → Table F × Outcome
  rekey_primary t old_key row value =
      if text_eq (value_key value) old_key
      then (set_cell t old_key row (primary_column t.columns) value, ok 1)
      else if has t.rows (value_key value)
      then (t, fail duplicate_primary_key)
      else (move_row t old_key (value_key value) row value, ok 1)

  -- keys = append(keys, key) for each row that is hit
  unfoldable pub hit_rows : (Row F → Bool) → Map Text (Row F) → List (Text × Row F)
  hit_rows hit [] = []
  hit_rows hit ((k, row) ∷ rows) =
      if hit row then (k, row) ∷ hit_rows hit rows else hit_rows hit rows

  unfoldable pub update_primary_multi : Table F → (Row F → Bool) → Value F → Table F × Outcome
  unfolding hit_rows
  update_primary_multi t hit value = elim (hit_rows hit t.rows) [
    | [] ↦ (t, ok 0)
    | (k, row) ∷ [] ↦
        if has t.rows (value_key value) && not (text_eq (value_key value) k)
        then (t, fail duplicate_primary_key)
        else rekey_primary t k row value
    | (k, row) ∷ (_ ∷ _) ↦ (t, fail duplicate_primary_key)
  ]

  -- `for key, row := range t.Rows`: no key comes or goes, so the entries at the start are visited.
  unfoldable pub update_rows :
      Context
      → (Row F → Bool)
      → Text
      → Value F
      → Map Text (Row F)
      → ℕ
      → ℕ
      → Table F
      → Table F × Outcome
  update_rows ctx hit column value [] at n t = (t, ok n)
  update_rows ctx hit column value ((k, row) ∷ rows) at n t =
      let (at', stop) = tick ctx at in
      elim stop [
        | true ↦ (t, fail cancelled)
        | false ↦ elim (hit row) [
          | true ↦ update_rows ctx hit column value rows at' (n + 1) (set_cell t k row column value)
          | false ↦ update_rows ctx hit column value rows at' n t
        ]
      ]

  -- the branch for an equality on the primary key
  unfoldable pub update_key : Table F → Bool → Text → Text → Value F → Table F × Outcome
  update_key t is_pk key column value = elim (get t.rows key) [
    | none ↦ (t, ok 0)
    | some row ↦
        if is_pk then rekey_primary t key row value else (set_cell t key row column value, ok 1)
  ]

  -- `wc`, `wv` and `is_eq` are the WHERE column, its text and op == opEq.
  unfoldable pub update :
      Context → Table F → Text → Value F → Text → Text → Bool → (Row F → Bool) → Table F × Outcome
  update ctx t column value wc wv is_eq hit =
      let pk = primary_column t.columns in
      let is_pk = text_eq column pk && not (text_eq pk []) in
      if not (text_eq wc []) && text_eq wc pk && is_eq
      then update_key t is_pk wv column value
      else if is_pk
      then update_primary_multi t hit value
      else update_rows ctx hit column value t.rows 0 0 t
