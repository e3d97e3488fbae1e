-- ===== src/Engine/Table.antt =====
-- internal/engine/types.go and fastpath.go: a table with its scan order, indexes and fast array.
use super_db.Prelude.Decimal.{format_uint}
use super_db.Prelude.Map.{Map, get, has, put, remove}
use super_db.Prelude.{
  List, Text, [], if◌then◌else◌, ℕ, Option, length, ltb, set, ◌∷◌, none, suc, ◌+◌, ◌==◌, some,
  text_instance, ◌*◌, ◌||◌, not, ◌%◌, ◌++◌, ◌^◌, zero,
}
pub mod Frame
pub mod Order
use super_db.Engine.Value.{Column, Row, Value, cell, primary_column}
use super_db.Engine.Index.{Indexes}

-- `fastPathThreshold`
abbrev pub fast_path_threshold : ℕ
fast_path_threshold = 256

pub record FastRow (F : Type 0) : Type 0 where
  pub key : Text
  pub values : List (Value F)

-- `mu` is not modelled: each operation below runs with the table's lock held.
pub record Table (F : Type 0) : Type 0 where
  pub name : Text
  pub columns : List Column
  pub rows : Map Text (Row F)
  pub order : List Text
  pub indexes : Indexes
  pub index_names : Map Text Text
  pub fast : List (FastRow F)
  pub positions : Map Text ℕ  -- the field `columns`
  pub fast_pos : Map Text ℕ
  pub dead : ℕ
  pub fast_dead : ℕ
  pub auto_key : ℕ  -- uint64

-- for i, column := range t.Columns { t.columns[column.Name] = i }
unfoldable pub number_columns : ℕ → List Column → Map Text ℕ → Map Text ℕ
number_columns i [] m = m
number_columns i (c ∷ cs) m = number_columns (i + 1) cs (put m c.name i)

module _ {F : Type 0} where
  -- values[i] = row[column.Name]
  unfoldable pub values_of : List Column → Row F → List (Value F)
  values_of [] row = []
  values_of (c ∷ cs) row = cell row c.name ∷ values_of cs row

  unfoldable pub clear_fast : Table F → Table F
  clear_fast t = record t { fast = []; positions = []; fast_pos = []; fast_dead = 0 }

  -- the last loop of `rebuildFastPathLocked`
  unfoldable pub rebuild_rows :
      List Column
      → Map Text (Row F)
      → List Text
      → List (FastRow F)
      → Map Text ℕ
      → List (FastRow F) × Map Text ℕ
  rebuild_rows cols rows [] fast pos = (fast, pos)
  rebuild_rows cols rows (key ∷ keys) fast pos = elim (get rows key) [
    | none ↦ rebuild_rows cols rows keys fast pos
    | some row ↦
        rebuild_rows cols rows keys
          (fast ++ (record { key = key; values = values_of cols row } ∷ []))
          (put pos key (length fast))
  ]

  unfoldable pub rebuild_fast_path : Table F → Table F
  unfolding clear_fast rebuild_rows number_columns values_of
  rebuild_fast_path t =
      let (fast, pos) = rebuild_rows t.columns t.rows t.order [] [] in
      if ltb (length t.order) fast_path_threshold then clear_fast t else record t {
        fast = fast;
        positions = number_columns 0 t.columns [];
        fast_pos = pos;
        fast_dead = 0;
      }

  unfoldable pub append_fast_row : Table F → Text → Row F → Table F
  unfolding rebuild_fast_path values_of
  append_fast_row t key row =
      if ltb (length t.order) fast_path_threshold
      then t
      else if length t.fast == 0 || not (length t.fast + 1 == length t.order)
      then rebuild_fast_path t
      else record t {
        fast = t.fast ++ (record { key = key; values = values_of t.columns row } ∷ []);
        fast_pos = put t.fast_pos key (length t.fast);
      }

  -- t.fast[i].key = ""; t.fast[i].values = nil
  bury : List (FastRow F) → ℕ → List (FastRow F)
  bury fast i = set fast i (record { key = []; values = [] })

  unfoldable pub remove_fast_row : Table F → Text → Table F
  unfolding clear_fast bury
  remove_fast_row t key =
      if length t.fast == 0
      then t
      else if ltb (length t.order) fast_path_threshold
      then clear_fast t
      else elim (get t.fast_pos key) [
        | none ↦ t
        | some i ↦ record t {
          fast = bury t.fast i;
          fast_pos = remove t.fast_pos key;
          fast_dead = t.fast_dead + 1;
        }
      ]

  -- the keys of `order` that have a row
  unfoldable pub live_keys : Map Text (Row F) → List Text → List Text
  live_keys rows [] = []
  live_keys rows (k ∷ ks) = if has rows k then k ∷ live_keys rows ks else live_keys rows ks

  -- The tail that the source overwrites with "" lies behind the shortened slice.
  unfoldable pub reclaim : Table F → Table F
  unfolding live_keys rebuild_fast_path
  reclaim t =
      let t' = record t { order = live_keys t.rows t.order; dead = 0 } in
      if ltb 0 (length t.fast) then rebuild_fast_path t' else t'

  unfoldable pub compact_order : Table F → Table F
  unfolding reclaim
  compact_order t =
      if length t.order == 0
      then record t { dead = 0 }
      else if ltb (t.dead * 4) (length t.order)
      then t
      else reclaim t

  -- Writes `values` into the fast row at `i`, and keeps its key. Where `i` is out of range, which panics in
  -- the code, nothing is written, as in `set_key`.
  set_values : List (FastRow F) → ℕ → List (Value F) → List (FastRow F)
  set_values [] i values = []
  set_values (r ∷ fast) zero values = record r { values = values } ∷ fast
  set_values (r ∷ fast) (suc i) values = r ∷ set_values fast i values

  set_key : List (FastRow F) → ℕ → Text → List (FastRow F)
  set_key [] i key = []
  set_key (r ∷ fast) zero key = record r { key = key } ∷ fast
  set_key (r ∷ fast) (suc i) key = r ∷ set_key fast i key

  values_at : List (FastRow F) → ℕ → List (Value F)
  values_at [] i = []
  values_at (r ∷ fast) zero = r.values
  values_at (r ∷ fast) (suc i) = values_at fast i

  unfoldable pub replace_fast_row : Table F → Text → Row F → Table F
  unfolding set_values values_of
  replace_fast_row t key row = if length t.fast == 0 then t else elim (get t.fast_pos key) [
    | none ↦ t
    | some i ↦ record t { fast = set_values t.fast i (values_of t.columns row) }
  ]

  unfoldable pub update_fast_row : Table F → Text → Text → Value F → Table F
  unfolding set_values values_at
  update_fast_row t key column value =
      if length t.fast == 0 then t else elim (get t.positions column) [
        | none ↦ t
        | some i ↦ elim (get t.fast_pos key) [
          | none ↦ t
          | some j ↦ record t { fast = set_values t.fast j (set (values_at t.fast j) i value) }
        ]
      ]

  -- t.fast[rowIndex].values[t.columns[t.primaryColumn()]] = value
  set_primary : Table F → ℕ → List (FastRow F) → Value F → List (FastRow F)
  unfolding set_values values_at primary_column
  set_primary t j fast value = elim (get t.positions (primary_column t.columns)) [
    | none ↦ fast
    | some i ↦ set_values fast j (set (values_at fast j) i value)
  ]

  unfoldable pub rekey_fast_row : Table F → Text → Text → Value F → Table F
  unfolding set_key set_primary
  rekey_fast_row t old_key new_key value =
      if length t.fast == 0 then t else elim (get t.fast_pos old_key) [
        | none ↦ t
        | some j ↦ record t {
          fast = set_primary t j (set_key t.fast j new_key) value;
          fast_pos = put (remove t.fast_pos old_key) new_key j;
        }
      ]

  -- `for { key := "#" + …; t.autoKey++; if !exists { return key } }`, on fuel: the key and the counter
  -- after it. `none` means that the fuel ran out.
  unfoldable pub next_synthetic_key : ℕ → Map Text (Row F) → ℕ → Option (Text × ℕ)
  next_synthetic_key zero rows n = none
  next_synthetic_key (suc f) rows n =
      let key = b'#' ∷ format_uint n in
      let next = (n + 1) % 2 ^ 64 in
      let again = next_synthetic_key f rows next in if has rows key then again else some (key, next)
