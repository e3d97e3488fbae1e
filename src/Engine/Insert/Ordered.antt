-- ===== src/Engine/Insert/Ordered.antt =====
-- INSERT keeps the scan order: each row, old or new, is scanned once.
use super_db.Engine.Insert.Keeps.{IsBatch, apply_insert_rows_keeps}
use super_db.Engine.Outcome.{Context}
use super_db.Prelude.Map.{has, get, has-put}
use super_db.Prelude.{
  Bool, Text, ◌∙◌, ◌≡◌, true, false, ◌⊎◌, arith, none, inr, text_eq_iff, inl, text_instance,
  Option-cases, if◌then◌else◌, List, ltb, Bool-cases,
}
use super_db.Engine.Value.{Floats, Row}
use super_db.Engine.Insert.{add_new, replace_row, store_row, apply_insert_rows, InsertRow}
use super_db.Engine.Table.{Table, reclaim}
use super_db.Engine.Table.Frame.{SameView, SameView-replace_fast_row, SameView-append_fast_row}
use super_db.Engine.Table.Order.{
  IsOrdered, SameView-IsOrdered, occurs-snoc, reclaim-IsOrdered, dead-reclaim,
}

module _ {F : Type 0} ⦃fl : Floats F⦄ where
  -- The order of a table with no tombstones.
  record IsClean (t : Table F) : Type 0 where
    ordered : IsOrdered t
    alive : t.dead ≡ 0

  SameView-IsClean : {t u : Table F} → SameView t u → IsClean t → IsClean u
  SameView-IsClean s h = record {
    ordered = SameView-IsOrdered s h.ordered;
    alive = s.dead ∙ h.alive;
  }

  add_new-IsClean :
      (t : Table F) (key : Text) (row : Row F)
      → IsClean t
      → has t.rows key ≡ false
      → IsClean (add_new t key row)
  unfolding add_new
  add_new-IsClean t key row h free = SameView-IsClean (SameView-append_fast_row _ key row) (record {
    ordered = record {
      once = λ k l. ground (
        arith,
        h.ordered.once k,
        h.ordered.clean h.alive k,
        has-put t.rows key row k,
        occurs-snoc k t.order key,
        text_eq_iff key k,
        l,
        free,
      );
      clean = λ d k l. ground (
        arith,
        h.ordered.clean h.alive k,
        has-put t.rows key row k,
        occurs-snoc k t.order key,
        l,
      );
    };
    alive = h.alive;
  })

  replace_row-IsClean :
      (t : Table F) (key : Text) (old row : Row F)
      → IsClean t
      → has t.rows key ≡ true
      → IsClean (replace_row t key old row)
  unfolding replace_row
  replace_row-IsClean t key old row h taken =
      SameView-IsClean (SameView-replace_fast_row _ key row) (record {
        ordered = record {
          once = λ k l.
              ground
                (arith, h.ordered.once k, has-put t.rows key row k, text_eq_iff key k, l, taken);
          clean = λ d k l.
              ground
                (arith, h.ordered.clean h.alive k, has-put t.rows key row k, text_eq_iff key k, l);
        };
        alive = h.alive;
      })

  store_row-IsClean :
      (replace : Bool) (t : Table F) (key : Text) (row : Row F)
      → IsClean t
      → (replace ≡ true) ⊎ (get t.rows key ≡ none)
      → IsClean (store_row replace t key row)
  unfolding store_row
  store_row-IsClean replace t key row h (inr e) =
      rw (e, store_row) (add_new-IsClean t key row h (unfold has in rw e))
  store_row-IsClean replace t key row h (inl r) = elim (Option-cases (get t.rows key)) [
    | inl e ↦ rw (e, store_row) (add_new-IsClean t key row h (unfold has in rw e))
    | inr (old, e) ↦ rw (e, store_row, r) (replace_row-IsClean t key old row h (unfold has in rw e))
  ]

  prepared-IsClean : (t : Table F) → IsOrdered t → IsClean (if ltb 0 t.dead then reclaim t else t)
  prepared-IsClean t h = elim (Bool-cases (ltb 0 t.dead)) [
    | inl b ↦ rw b (record { ordered = reclaim-IsOrdered t h; alive = dead-reclaim t })
    | inr b ↦ rw b (record { ordered = h; alive = ground (arith, b) })
  ]

  -- Whatever INSERT does, its errors included, each row is scanned once after it if that was so before.
  pub apply_insert_rows-IsOrdered :
      (ctx : Context) (replace : Bool) (t : Table F) (items : List (InsertRow F))
      → IsBatch replace items
      → IsOrdered t
      → IsOrdered (apply_insert_rows ctx replace t items).0
  apply_insert_rows-IsOrdered ctx replace t items batch h =
      apply_insert_rows_keeps IsClean store_row-IsClean
        (λ t n h. record {
          ordered = record { once = h.ordered.once; clean = h.ordered.clean };
          alive = h.alive;
        })
        IsOrdered (λ t h. h.ordered) ctx replace t items batch h (prepared-IsClean t h)
