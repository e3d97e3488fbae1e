-- ===== src/Engine/Index.antt =====
-- internal/engine/schema.go: secondary indexes, from a column and a rendered value to row keys.
pub mod Laws
pub mod Agree
use super_db.Prelude.{
  Bool, true, false, List, [], ◌∷◌, none, some, Text, if◌then◌else◌, text_instance,
}
use super_db.Prelude.Map.{Map, get, put, remove, get_or}
use super_db.Engine.Value.{Row, Floats, cell, value_key}

-- map[string]struct{}
abbrev pub Keys : Type 0
Keys = Map Text (Unit {0})

abbrev pub Index : Type 0
Index = Map Text Keys

abbrev pub Indexes : Type 0
Indexes = Map Text Index

-- the columns that `range t.Indexes` visits
unfoldable pub columns_of : Indexes → List Text
columns_of [] = []
columns_of ((c, _) ∷ ix) = c ∷ columns_of ix

unfoldable pub add_key : Index → Text → Text → Index
add_key idx value primary = put idx value (put (get_or (get idx value) []) primary tt)

is_empty : Keys → Bool
is_empty [] = true
is_empty (_ ∷ _) = false

unfoldable pub remove_key : Index → Text → Text → Index
unfolding is_empty
remove_key idx value primary =
    let left = remove (get_or (get idx value) []) primary in
    if is_empty left then remove idx value else put idx value left

unfoldable pub add_index_value : Indexes → Text → Text → Text → Indexes
add_index_value ix column value primary = elim (get ix column) [
  | none ↦ ix
  | some idx ↦ put ix column (add_key idx value primary)
]

unfoldable pub remove_index_value : Indexes → Text → Text → Text → Indexes
remove_index_value ix column value primary = elim (get ix column) [
  | none ↦ ix
  | some idx ↦ put ix column (remove_key idx value primary)
]

-- for column := range t.Indexes { t.addIndexValue(column, valueKey(row[column]), key) }
module _ {F : Type 0} ⦃fl : Floats F⦄ where
  unfoldable pub add_columns : List Text → Indexes → Row F → Text → Indexes
  add_columns [] ix row key = ix
  add_columns (c ∷ cs) ix row key =
      add_columns cs (add_index_value ix c (value_key (cell row c)) key) row key

  unfoldable pub remove_columns : List Text → Indexes → Row F → Text → Indexes
  remove_columns [] ix row key = ix
  remove_columns (c ∷ cs) ix row key =
      remove_columns cs (remove_index_value ix c (value_key (cell row c)) key) row key

  unfoldable pub add_row : Indexes → Row F → Text → Indexes
  add_row ix row key = add_columns (columns_of ix) ix row key

  unfoldable pub remove_row : Indexes → Row F → Text → Indexes
  remove_row ix row key = remove_columns (columns_of ix) ix row key
