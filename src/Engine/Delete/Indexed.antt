-- ===== src/Engine/Delete/Indexed.antt =====
-- DELETE keeps the secondary indexes in agreement with the rows.
use super_db.Prelude.Unique.{Unique-remove}
use super_db.Engine.Index.Agree.{Agree-remove}
use super_db.Prelude.Map.{get}
use super_db.Prelude.{
  List, Text, Bool, Option-cases, arith, ℕ, Bool-cases, inl, not, ◌∷◌, ◌≡◌, inr, some, text_eq, [],
  ◌+◌, text_instance, ◌&&◌, ◌++◌,
}
use super_db.Engine.Outcome.{Context, tick}
use super_db.Engine.Value.{Floats, Row, primary_column}
use super_db.Engine.Delete.{
  reap_fast, bury_row, delete_key, drop_row, delete_rows, delete_scan, delete,
}
use super_db.Engine.Table.{Table}
use super_db.Engine.Table.Frame.{
  IsIndexed, SameView-rebuild_fast_path, SameView, SameRows-IsIndexed, SameRows-compact_order,
  SameView-remove_fast_row,
}

module _ {F : Type 0} ⦃fl : Floats F⦄ where
  pub SameView-reap_fast : (t : Table F) → SameView t (reap_fast t)
  unfolding reap_fast
  SameView-reap_fast t = record {
    same = record {
      rows = ground (arith, SameView-rebuild_fast_path t);
      indexes = ground (arith, SameView-rebuild_fast_path t);
      columns = ground (arith, SameView-rebuild_fast_path t);
    };
    order = ground (arith, SameView-rebuild_fast_path t);
    dead = ground (arith, SameView-rebuild_fast_path t);
  }

  bury_row-IsIndexed :
      (t : Table F) (key : Text) (row : Row F)
      → IsIndexed t
      → get t.rows key ≡ some row
      → IsIndexed (bury_row t key row)
  unfolding bury_row
  bury_row-IsIndexed t key row h e = record {
    unique = Unique-remove t.rows key h.unique;
    agree = Agree-remove t.indexes t.rows h.agree key row e;
  }

  drop_row-IsIndexed :
      (t : Table F) (key : Text) (row : Row F)
      → IsIndexed t
      → get t.rows key ≡ some row
      → IsIndexed (drop_row t key row)
  unfolding drop_row
  drop_row-IsIndexed t key row h e =
      SameRows-IsIndexed (SameView-remove_fast_row _ key).same (record {
        unique = Unique-remove t.rows key h.unique;
        agree = Agree-remove t.indexes t.rows h.agree key row e;
      })

  pub delete_key-IsIndexed :
      (t : Table F) (key : Text) → IsIndexed t → IsIndexed (delete_key t key).0
  unfolding delete_key
  delete_key-IsIndexed t key h = elim (Option-cases (get t.rows key)) [
    | inl e ↦ rw (e, delete_key) h
    | inr (row, e) ↦
        rw (e, delete_key)
          (SameRows-IsIndexed (SameView-reap_fast _).same (
            SameRows-IsIndexed (SameRows-compact_order _) (
              SameRows-IsIndexed (SameView-remove_fast_row _ key).same
                (bury_row-IsIndexed t key row h e))))
  ]

  reorder-IsIndexed :
      (t : Table F) (order : List Text) (dead : ℕ)
      → IsIndexed t
      → IsIndexed (record t { order = order; dead = dead })
  reorder-IsIndexed t order dead h = record { unique = h.unique; agree = h.agree }

  delete_rows-IsIndexed :
      (ctx : Context) (hit : Row F → Bool) (keys : List Text) (at : ℕ) (remaining : List Text)
      (n : ℕ) (t : Table F)
      → IsIndexed t
      → IsIndexed (delete_rows ctx hit keys at remaining n t).0
  unfolding delete_rows
  delete_rows-IsIndexed ctx hit [] at remaining n t h =
      SameRows-IsIndexed (SameView-reap_fast _).same (reorder-IsIndexed t remaining 0 h)
  delete_rows-IsIndexed ctx hit (k ∷ ks) at remaining n t h = elim (Bool-cases (tick ctx at).1) [
    | inl stop ↦ rw (stop, delete_rows) (record { unique = h.unique; agree = h.agree })
    | inr go ↦
        rw (go, delete_rows)
          (elim (Option-cases (get t.rows k)) [
            | inl e ↦
                rw (e, delete_rows)
                  (delete_rows-IsIndexed ctx hit ks (tick ctx at).0 remaining n t h)
            | inr (row, e) ↦
                rw (e, delete_rows)
                  (elim (Bool-cases (hit row)) [
                    | inl b ↦
                        rw (b, delete_rows)
                          (delete_rows-IsIndexed ctx hit ks (tick ctx at).0 remaining (n + 1)
                            (drop_row t k row) (drop_row-IsIndexed t k row h e))
                    | inr b ↦
                        rw (b, delete_rows)
                          (delete_rows-IsIndexed ctx hit ks (tick ctx at).0 (remaining ++ (k ∷ []))
                            n t h)
                  ])
          ])
  ]

  -- Whatever DELETE does, ended by its context or not, the indexes agree with the rows after it if
  -- they did before.
  pub delete-IsIndexed :
      (ctx : Context) (t : Table F) (column value : Text) (is_eq : Bool) (hit : Row F → Bool)
      → IsIndexed t
      → IsIndexed (delete ctx t column value is_eq hit).0
  unfolding delete delete_scan
  delete-IsIndexed ctx t column value is_eq hit h =
      elim (Bool-cases
        (not (text_eq column []) && text_eq column (primary_column t.columns) && is_eq)) [
          | inl b ↦ rw b (delete_key-IsIndexed t value h)
          | inr b ↦ rw b (delete_rows-IsIndexed ctx hit t.order 0 [] 0 t h)
        ]
