-- ===== src/Engine/Table/Frame.antt =====
-- The fast array's upkeep touches neither the rows nor the indexes, and compaction touches of these
-- three only the order.
use super_db.Prelude.Unique.{Unique}
use super_db.Engine.Index.Agree.{Agree}
use super_db.Engine.Value.{Row, Value, Floats}
use super_db.Prelude.{Text, arith, ◌≡◌, text_instance}
use super_db.Engine.Table.{
  Table, rebuild_fast_path, append_fast_row, remove_fast_row, replace_fast_row, update_fast_row,
  rekey_fast_row, reclaim, compact_order, live_keys,
}

-- The parts of a table that readers see are the same, the order aside.
pub record SameRows {F : Type 0} (t u : Table F) : Type 0 where
  pub rows : u.rows ≡ t.rows
  pub indexes : u.indexes ≡ t.indexes
  pub columns : u.columns ≡ t.columns

pub record SameView {F : Type 0} (t u : Table F) : Type 0 where
  pub same : SameRows t u
  pub open same use *
  pub order : u.order ≡ t.order
  pub dead : u.dead ≡ t.dead

module _ {F : Type 0} where
  pub SameView-rebuild_fast_path : (t : Table F) → SameView t (rebuild_fast_path t)
  unfolding rebuild_fast_path
  SameView-rebuild_fast_path t = record {
    same = record { rows = ground arith; indexes = ground arith; columns = ground arith };
    order = ground arith;
    dead = ground arith;
  }

  pub SameView-append_fast_row :
      (t : Table F) (key : Text) (row : Row F) → SameView t (append_fast_row t key row)
  unfolding append_fast_row
  SameView-append_fast_row t key row = record {
    same = record { rows = ground arith; indexes = ground arith; columns = ground arith };
    order = ground arith;
    dead = ground arith;
  }

  pub SameView-remove_fast_row : (t : Table F) (key : Text) → SameView t (remove_fast_row t key)
  unfolding remove_fast_row
  SameView-remove_fast_row t key = record {
    same = record { rows = ground arith; indexes = ground arith; columns = ground arith };
    order = ground arith;
    dead = ground arith;
  }

  pub SameView-replace_fast_row :
      (t : Table F) (key : Text) (row : Row F) → SameView t (replace_fast_row t key row)
  unfolding replace_fast_row
  SameView-replace_fast_row t key row = record {
    same = record { rows = ground arith; indexes = ground arith; columns = ground arith };
    order = ground arith;
    dead = ground arith;
  }

  pub SameView-update_fast_row :
      (t : Table F) (key column : Text) (value : Value F)
      → SameView t (update_fast_row t key column value)
  unfolding update_fast_row
  SameView-update_fast_row t key column value = record {
    same = record { rows = ground arith; indexes = ground arith; columns = ground arith };
    order = ground arith;
    dead = ground arith;
  }

  pub SameView-rekey_fast_row :
      (t : Table F) (old new : Text) (value : Value F) → SameView t (rekey_fast_row t old new value)
  unfolding rekey_fast_row
  SameView-rekey_fast_row t old new value = record {
    same = record { rows = ground arith; indexes = ground arith; columns = ground arith };
    order = ground arith;
    dead = ground arith;
  }

  pub SameRows-reclaim : (t : Table F) → SameRows t (reclaim t)
  unfolding reclaim
  SameRows-reclaim t = record {
    rows = ground arith;
    indexes = ground arith;
    columns = ground arith;
  }

  pub SameRows-compact_order : (t : Table F) → SameRows t (compact_order t)
  unfolding compact_order
  SameRows-compact_order t = record {
    rows = ground (arith, SameRows-reclaim t);
    indexes = ground (arith, SameRows-reclaim t);
    columns = ground (arith, SameRows-reclaim t);
  }

  pub order-reclaim : (t : Table F) → (reclaim t).order ≡ live_keys t.rows t.order
  unfolding reclaim
  order-reclaim t = ground arith

module _ {F : Type 0} ⦃fl : Floats F⦄ where
  -- The secondary indexes of a table agree with its rows, which have each key once.
  pub record IsIndexed (t : Table F) : Type 0 where
    pub unique : Unique t.rows
    pub agree : Agree t.indexes t.rows

  pub SameRows-IsIndexed : {t u : Table F} → SameRows t u → IsIndexed t → IsIndexed u
  SameRows-IsIndexed s h = record {
    unique = rw s.rows h.unique;
    agree = λ c v k. ground (arith, h.agree c v k, s);
  }
