-- ===== src/Engine/Index/Agree.antt =====
-- The indexes and the rows agree: a key is posted under a value of an indexed column exactly if its
-- row has that value there. Each way in which the engine changes both keeps this.
use super_db.Engine.Index.Laws.{
  posted, posted-add_index_value, posted-add_row, posted-remove_row, has-add_index_value,
  has-add_row, has-remove_row, has-remove_index_value, posted-remove_index_value,
}
use super_db.Prelude.Map.{Map, get, has, put, remove, get-put, get-remove}
use super_db.Prelude.{
  Option, Text, Bool, false, ◌≡◌, none, some, text_eq, ◌&&◌, text_instance, arith, text_eq_iff,
}
use super_db.Engine.Value.{Floats, Row, Value, value_key, cell}
use super_db.Engine.Index.{Indexes, add_index_value, add_row, remove_row, remove_index_value}

abbrev pub shows : {F : Type 0} ⦃fl : Floats F⦄ → Option (Row F) → Text → Text → Bool
shows none c v = false
shows (some row) c v = text_eq (value_key (cell row c)) v

abbrev pub Agree : {F : Type 0} ⦃fl : Floats F⦄ → Indexes → Map Text (Row F) → Type 0
Agree ix rows = (c v k : Text) → posted ix c v k ≡ has ix c && shows (get rows k) c v

module _ {F : Type 0} ⦃fl : Floats F⦄ (ix : Indexes) (rows : Map Text (Row F))
    (agree : Agree ix rows) where
  pub Agree-remove :
      (key : Text) (row : Row F)
      → get rows key ≡ some row
      → Agree (remove_row ix row key) (remove rows key)
  Agree-remove key row found c v k = ground (
    arith,
    posted-remove_row ix row key c v k,
    has-remove_row ix row key c,
    get-remove rows key k,
    text_eq_iff key k,
    agree c v k,
  )

  pub Agree-insert :
      (key : Text) (row : Row F)
      → get rows key ≡ none
      → Agree (add_row ix row key) (put rows key row)
  Agree-insert key row fresh c v k = ground (
    arith,
    posted-add_row ix row key c v k,
    has-add_row ix row key c,
    get-put rows key row k,
    text_eq_iff key k,
    agree c v k,
  )

  pub Agree-replace :
      (key : Text) (old row : Row F)
      → get rows key ≡ some old
      → Agree (add_row (remove_row ix old key) row key) (put rows key row)
  Agree-replace key old row found c v k = ground (
    arith,
    posted-add_row (remove_row ix old key) row key c v k,
    has-add_row (remove_row ix old key) row key c,
    posted-remove_row ix old key c v k,
    has-remove_row ix old key c,
    get-put rows key row k,
    text_eq_iff key k,
    agree c v k,
  )

  pub Agree-set_cell :
      (key column : Text) (row : Row F) (value : Value F)
      → get rows key ≡ some row
      → Agree
          (add_index_value
            (remove_index_value ix column (value_key (cell row column)) key)
            column
            (value_key value)
            key)
          (put rows key (put row column value))
  Agree-set_cell key column row value found c v k = ground (
    arith,
    posted-add_index_value (remove_index_value ix column (value_key (cell row column)) key) column
        (value_key value) key c v k,
    has-add_index_value (remove_index_value ix column (value_key (cell row column)) key) column
        (value_key value) key c,
    has-remove_index_value ix column (value_key (cell row column)) key column,
    posted-remove_index_value ix column (value_key (cell row column)) key c v k,
    has-remove_index_value ix column (value_key (cell row column)) key c,
    get-put rows key (put row column value) k,
    get-put row column value c,
    text_eq_iff key k,
    text_eq_iff column c,
    agree c v k,
  )
