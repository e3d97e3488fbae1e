-- ===== src/Engine/Delete.antt =====
-- internal/engine/delete.go: DELETE on a table, once its WHERE is parsed. `hit` is
-- `c == "" || matchWhereOp(row[c], v, expected, op)`.
pub mod Indexed
pub mod Ordered
use super_db.Engine.Index.{remove_row}
use super_db.Prelude.Map.{get, remove}
use super_db.Prelude.{
  Text, if◌then◌else◌, Bool, ltb, List, [], length, not, text_eq, ℕ, ◌&&◌, leb, text_instance, ◌+◌,
  ◌∷◌, ◌*◌, ◌++◌, drop, false, none, some, true,
}
use super_db.Engine.Value.{Floats, Row, primary_column}
use super_db.Engine.Outcome.{Outcome, ok, Context, tick, fail, cancelled}
use super_db.Engine.Table.{Table, remove_fast_row, rebuild_fast_path, compact_order}

module _ {F : Type 0} ⦃fl : Floats F⦄ where
  -- if len(t.fast) > 0 && t.fastDead*4 >= len(t.fast)+t.fastDead
  unfoldable pub reap_fast : Table F → Table F
  reap_fast t =
      if ltb 0 (length t.fast) && leb (length t.fast + t.fast_dead) (t.fast_dead * 4)
      then rebuild_fast_path t
      else t

  -- The row and its postings go; its key stays in the order as a tombstone.
  unfoldable pub bury_row : Table F → Text → Row F → Table F
  bury_row t key row = record t {
    indexes = remove_row t.indexes row key;
    rows = remove t.rows key;
    dead = t.dead + 1;
  }

  -- the branch for an equality on the primary key
  unfoldable pub delete_key : Table F → Text → Table F × Outcome
  unfolding reap_fast bury_row
  delete_key t key = elim (get t.rows key) [
    | none ↦ (t, ok 0)
    | some row ↦ (reap_fast (compact_order (remove_fast_row (bury_row t key row) key)), ok 1)
  ]

  -- the loop's body for a row that is hit
  unfoldable pub drop_row : Table F → Text → Row F → Table F
  drop_row t key row =
      remove_fast_row
        (record t { indexes = remove_row t.indexes row key; rows = remove t.rows key }) key

  -- `remaining` shares its array with the order that is being read: where the context ends the scan,
  -- its keys stand in front of what the order had there.
  unfoldable pub delete_rows :
      Context → (Row F → Bool) → List Text → ℕ → List Text → ℕ → Table F → Table F × Outcome
  unfolding drop_row reap_fast
  delete_rows ctx hit [] at remaining n t =
      (reap_fast (record t { order = remaining; dead = 0 }), ok n)
  delete_rows ctx hit (k ∷ ks) at remaining n t =
      let (at', stop) = tick ctx at in
      let stopped = record t { order = remaining ++ drop (length remaining) t.order } in
      let skip = delete_rows ctx hit ks at' remaining n t in
      let keep = delete_rows ctx hit ks at' (remaining ++ (k ∷ [])) n t in
      elim stop [
        | true ↦ (stopped, fail cancelled)
        | false ↦ elim (get t.rows k) [
          | none ↦ skip
          | some row ↦ elim (hit row) [
            | true ↦ delete_rows ctx hit ks at' remaining (n + 1) (drop_row t k row)
            | false ↦ keep
          ]
        ]
      ]

  unfoldable pub delete_scan : Context → (Row F → Bool) → Table F → Table F × Outcome
  delete_scan ctx hit t = delete_rows ctx hit t.order 0 [] 0 t

  -- `is_eq` is op == opEq
  unfoldable pub delete :
      Context → Table F → Text → Text → Bool → (Row F → Bool) → Table F × Outcome
  delete ctx t column value is_eq hit =
      if not (text_eq column []) && text_eq column (primary_column t.columns) && is_eq
      then delete_key t value
      else delete_scan ctx hit t
