-- ===== src/Engine/Insert/Indexed.antt =====
-- INSERT keeps the secondary indexes in agreement with the rows, with one posting for each new row.
use super_db.Engine.Insert.Keeps.{IsBatch, apply_insert_rows_keeps}
use super_db.Engine.Index.Agree.{Agree-insert, Agree-replace}
use super_db.Prelude.Unique.{Unique-put}
use super_db.Engine.Outcome.{Context}
use super_db.Prelude.Map.{get}
use super_db.Prelude.{
  List, Bool, Text, ◌≡◌, none, some, true, ◌⊎◌, inr, text_instance, Option-cases, inl, Bool-cases,
  if◌then◌else◌, ltb,
}
use super_db.Engine.Value.{Floats, Row}
use super_db.Engine.Insert.{InsertRow, add_new, replace_row, store_row, apply_insert_rows}
use super_db.Engine.Table.{Table, reclaim}
use super_db.Engine.Table.Frame.{
  IsIndexed, SameRows-IsIndexed, SameView-append_fast_row, SameView-replace_fast_row,
  SameRows-reclaim,
}

module _ {F : Type 0} ⦃fl : Floats F⦄ where
  add_new-IsIndexed :
      (t : Table F) (key : Text) (row : Row F)
      → IsIndexed t
      → get t.rows key ≡ none
      → IsIndexed (add_new t key row)
  unfolding add_new
  add_new-IsIndexed t key row h e =
      SameRows-IsIndexed (SameView-append_fast_row _ key row).same (record {
        unique = Unique-put t.rows key row h.unique;
        agree = Agree-insert t.indexes t.rows h.agree key row e;
      })

  replace_row-IsIndexed :
      (t : Table F) (key : Text) (old row : Row F)
      → IsIndexed t
      → get t.rows key ≡ some old
      → IsIndexed (replace_row t key old row)
  unfolding replace_row
  replace_row-IsIndexed t key old row h e =
      SameRows-IsIndexed (SameView-replace_fast_row _ key row).same (record {
        unique = Unique-put t.rows key row h.unique;
        agree = Agree-replace t.indexes t.rows h.agree key old row e;
      })

  -- Where a key may be taken, the statement replaces.
  store_row-IsIndexed :
      (replace : Bool) (t : Table F) (key : Text) (row : Row F)
      → IsIndexed t
      → (replace ≡ true) ⊎ (get t.rows key ≡ none)
      → IsIndexed (store_row replace t key row)
  unfolding store_row
  store_row-IsIndexed replace t key row h (inr e) =
      rw (e, store_row) (add_new-IsIndexed t key row h e)
  store_row-IsIndexed replace t key row h (inl r) = elim (Option-cases (get t.rows key)) [
    | inl e ↦ rw (e, store_row) (add_new-IsIndexed t key row h e)
    | inr (old, e) ↦ rw (e, store_row, r) (replace_row-IsIndexed t key old row h e)
  ]

  prepared-IsIndexed :
      (t : Table F) → IsIndexed t → IsIndexed (if ltb 0 t.dead then reclaim t else t)
  prepared-IsIndexed t h = elim (Bool-cases (ltb 0 t.dead)) [
    | inl b ↦ rw b (SameRows-IsIndexed (SameRows-reclaim t) h)
    | inr b ↦ rw b h
  ]

  -- Whatever INSERT does, its errors and the end of its context included, the indexes agree with the
  -- rows after it if they did before, and the rows have each key once. The batch is an upsert, or one
  -- in which every row has a key, or one in which none has.
  pub apply_insert_rows-IsIndexed :
      (ctx : Context) (replace : Bool) (t : Table F) (items : List (InsertRow F))
      → IsBatch replace items
      → IsIndexed t
      → IsIndexed (apply_insert_rows ctx replace t items).0
  apply_insert_rows-IsIndexed ctx replace t items batch h =
      apply_insert_rows_keeps IsIndexed store_row-IsIndexed
        (λ t n h. record { unique = h.unique; agree = h.agree }) IsIndexed (λ t h. h) ctx replace t
        items batch h (prepared-IsIndexed t h)
