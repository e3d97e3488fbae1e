-- ===== src/Engine/Schema.antt =====
-- internal/engine/schema.go and drop.go: CREATE INDEX, ALTER TABLE, DROP INDEX and TRUNCATE on a table,
-- once they are parsed. Names are in lower case here.
pub mod Indexed
pub mod Columns
pub mod Widen
use super_db.Prelude.Map.{Map, get, put, remove, has}
use super_db.Prelude.{
  ℕ, Text, List, Bool, Option, none, some, true, false, ◌∷◌, [], if◌then◌else◌, text_eq,
  text_instance, length, ltb, leb, ◌++◌,
}
use super_db.Engine.Value.{Floats, Row, Column, ColumnType, null, cell, value_key, has_column}
use super_db.Engine.Outcome.{Context, tick}
use super_db.Engine.Index.{Index, Indexes, add_key}
use super_db.Engine.Table.{Table, rebuild_fast_path}

pub data SchemaError : Type 0 where
  column_not_found index_exists index_name_exists index_not_found column_exists only_column
        cancelled :
      SchemaError

-- `ok` is a Result with a message.
pub data SchemaResult : Type 0 where
  ok : SchemaResult
  refused : SchemaError → SchemaResult

-- the first column of a name is cut out of t.Columns
unfoldable pub cut_column : List Column → Text → List Column
cut_column [] name = []
cut_column (c ∷ cs) name = if text_eq c.name name then cs else c ∷ cut_column cs name

-- for name, col := range t.IndexNames { if col == column { delete(t.IndexNames, name) } }
unfoldable pub forget_names : Map Text Text → Text → Map Text Text
forget_names [] column = []
forget_names ((name, col) ∷ names) column =
    let rest = forget_names names column in if text_eq col column then rest else (name, col) ∷ rest

-- for column := range t.Indexes { t.Indexes[column] = make(...) }
unfoldable pub clear_indexes : Indexes → Indexes
clear_indexes [] = []
clear_indexes ((column, index) ∷ ix) = (column, []) ∷ clear_indexes ix

module _ {F : Type 0} where
  -- The rows after a loop that changes each of them, and whether the context ended it
  unfoldable pub each_row :
      Context → (Row F → Row F) → ℕ → Map Text (Row F) → Map Text (Row F) × Bool
  each_row ctx change at [] = ([], false)
  each_row ctx change at ((key, row) ∷ rows) =
      let (at', stop) = tick ctx at in
      let (rest, stopped) = each_row ctx change at' rows in
      if stop then ((key, row) ∷ rows, true) else ((key, change row) ∷ rest, stopped)

  -- if len(t.fast) > 0 { t.rebuildFastPathLocked() }
  unfoldable pub refresh_fast : Table F → Table F
  refresh_fast t = if ltb 0 (length t.fast) then rebuild_fast_path t else t

  -- `dropIndex` from the lock on: a name of an index, or else an indexed column
  unfoldable pub drop_index_on : Table F → Text → Table F
  drop_index_on t column = record t {
    indexes = remove t.indexes column;
    index_names = forget_names t.index_names column;
  }

  unfoldable pub drop_index : Table F → Text → Table F × SchemaResult
  unfolding drop_index_on
  drop_index t name = elim (get t.index_names name) [
    | some column ↦ (drop_index_on t column, ok)
    | none ↦ if has t.indexes name then (drop_index_on t name, ok) else (t, refused index_not_found)
  ]

  -- `truncate` from the lock on
  unfoldable pub truncate : Table F → Table F
  unfolding clear_indexes
  truncate t = record t {
    rows = [];
    order = [];
    indexes = clear_indexes t.indexes;
    fast = [];
    positions = [];
    fast_pos = [];
    dead = 0;
    fast_dead = 0;
    auto_key = 0;
  }

  -- the end of `dropColumn`, behind its loop
  unfoldable pub finish_drop : Table F → Text → Map Text (Row F) × Bool → Table F × SchemaResult
  unfolding drop_index_on refresh_fast
  finish_drop t column (rows, true) = (record t { rows = rows }, refused cancelled)
  finish_drop t column (rows, false) =
      (refresh_fast (drop_index_on (record t { rows = rows }) column), ok)

  -- `dropColumn` from the lock on: the column leaves the schema before the loop
  unfoldable pub drop_column : Context → Table F → Text → Table F × SchemaResult
  unfolding each_row finish_drop
  drop_column ctx t column =
      if leb (length t.columns) 1
      then (t, refused only_column)
      else if has_column t.columns column
      then finish_drop (record t { columns = cut_column t.columns column }) column
          (each_row ctx (λ row. remove row column) 0 t.rows)
      else (t, refused column_not_found)

  -- the end of ALTER TABLE ... ADD COLUMN, behind its loop
  unfoldable pub finish_add : Table F → Map Text (Row F) × Bool → Table F × SchemaResult
  unfolding refresh_fast
  finish_add t (rows, true) = (record t { rows = rows }, refused cancelled)
  finish_add t (rows, false) = (refresh_fast (record t { rows = rows }), ok)

  -- ALTER TABLE ... ADD COLUMN from the lock on
  unfoldable pub add_column : Context → Table F → Text → ColumnType → Table F × SchemaResult
  unfolding each_row finish_add
  add_column ctx t column typ =
      if has_column t.columns column
      then (t, refused column_exists)
      else finish_add
          (record t {
            columns = t.columns ++ (record { name = column; type = typ; primary = false } ∷ []);
          })
          (each_row ctx (λ row. put row column null) 0 t.rows)

module _ {F : Type 0} ⦃fl : Floats F⦄ where
  -- the loop of `createIndex` over the rows; none where the context ends it
  unfoldable pub build_index : Context → Text → ℕ → Map Text (Row F) → Index → Option Index
  build_index ctx column at [] index = some index
  build_index ctx column at ((key, row) ∷ rows) index =
      let (at', stop) = tick ctx at in
      let rest =
        build_index ctx column at' rows (add_key index (value_key (cell row column)) key) in
      if stop then none else rest

  unfoldable pub install_index : Table F → Text → Text → Option Index → Table F × SchemaResult
  install_index t name column none = (t, refused cancelled)
  install_index t name column (some index) = (
    record t { indexes = put t.indexes column index; index_names = put t.index_names name column },
    ok,
  )

  -- `createIndex` from the lock on
  unfoldable pub create_index : Context → Table F → Text → Text → Table F × SchemaResult
  unfolding build_index install_index
  create_index ctx t name column =
      if has_column t.columns column
      then (if has t.indexes column
          then (t, refused index_exists)
          else if has t.index_names name
          then (t, refused index_name_exists)
          else install_index t name column (build_index ctx column 0 t.rows []))
      else (t, refused column_not_found)
