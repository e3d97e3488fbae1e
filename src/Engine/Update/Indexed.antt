-- ===== src/Engine/Update/Indexed.antt =====
-- UPDATE keeps the secondary indexes in agreement with the rows.
use super_db.Prelude.Unique.{Unique-put, Unique-remove, Fits, Fits-self, Fits-put}
use super_db.Engine.Outcome.{Context, tick}
use super_db.Engine.Index.{remove_row}
use super_db.Engine.Index.Agree.{Agree-set_cell, Agree-insert, Agree-remove}
use super_db.Prelude.Map.{get, remove, put, has, get-remove, Map}
use super_db.Prelude.{
  Text, ◌≡◌, some, Bool-cases, none, text_eq, text_instance, inl, inr, Option-cases, arith, Bool,
  List, ◌&&◌, not, ℕ, [], ◌∷◌, ◌+◌, refl,
}
use super_db.Engine.Value.{Floats, Row, Value, value_key, primary_column}
use super_db.Engine.Update.{
  set_cell, move_row, rekey_primary, hit_rows, update_primary_multi, update_rows, update_key,
  update,
}
use super_db.Engine.Table.{Table}
use super_db.Engine.Table.Frame.{
  IsIndexed, SameRows-IsIndexed, SameView-update_fast_row, SameView-rekey_fast_row,
}

module _ {F : Type 0} ⦃fl : Floats F⦄ where
  pub set_cell-IsIndexed :
      (t : Table F) (key column : Text) (row : Row F) (value : Value F)
      → IsIndexed t
      → get t.rows key ≡ some row
      → IsIndexed (set_cell t key row column value)
  unfolding set_cell
  set_cell-IsIndexed t key column row value h e =
      SameRows-IsIndexed (SameView-update_fast_row _ key column value).same (record {
        unique = Unique-put t.rows key (put row column value) h.unique;
        agree = Agree-set_cell t.indexes t.rows h.agree key column row value e;
      })

  move_row-IsIndexed :
      (t : Table F) (old_key new_key : Text) (row : Row F) (value : Value F)
      → IsIndexed t
      → get t.rows old_key ≡ some row
      → get t.rows new_key ≡ none
      → IsIndexed (move_row t old_key new_key row value)
  unfolding move_row
  move_row-IsIndexed t old_key new_key row value h e fresh =
      SameRows-IsIndexed (SameView-rekey_fast_row _ old_key new_key value).same (record {
        unique =
            Unique-put (remove t.rows old_key) new_key (put row (primary_column t.columns) value)
              (Unique-remove t.rows old_key h.unique);
        agree =
            Agree-insert (remove_row t.indexes row old_key) (remove t.rows old_key)
              (Agree-remove t.indexes t.rows h.agree old_key row e) new_key
              (put row (primary_column t.columns) value)
              (ground (arith, get-remove t.rows old_key new_key));
      })

  pub rekey_primary-IsIndexed :
      (t : Table F) (old_key : Text) (row : Row F) (value : Value F)
      → IsIndexed t
      → get t.rows old_key ≡ some row
      → IsIndexed (rekey_primary t old_key row value).0
  unfolding rekey_primary
  rekey_primary-IsIndexed t old_key row value h e =
      elim (Bool-cases (text_eq (value_key value) old_key)) [
        | inl same ↦ rw same (set_cell-IsIndexed t old_key (primary_column t.columns) row value h e)
        | inr other ↦ rw other (elim (Option-cases (get t.rows (value_key value))) [
          | inl free ↦
              unfold has in
              rw free (move_row-IsIndexed t old_key (value_key value) row value h e free)
          | inr (_, taken) ↦ unfold has in rw taken h
        ])
      ]

  pub Fits-hit_rows :
      (hit : Row F → Bool) (es m : Map Text (Row F))
      → Fits es m
      → (k : Text) (row : Row F) (rest : List (Text × Row F)) → hit_rows hit es ≡ (k, row) ∷ rest
      → get m k ≡ some row
  unfolding hit_rows
  Fits-hit_rows hit [] m f k row rest e = cc
  Fits-hit_rows hit ((j, r) ∷ es) m f k row rest e =
      ground (arith, Fits-hit_rows hit es m f.2 k row rest, f.0)

  update_primary_multi-IsIndexed :
      (t : Table F) (hit : Row F → Bool) (value : Value F)
      → IsIndexed t
      → (found : List (Text × Row F)) → hit_rows hit t.rows ≡ found
      → IsIndexed (update_primary_multi t hit value).0
  unfolding update_primary_multi
  update_primary_multi-IsIndexed t hit value h [] e = rw (e, update_primary_multi) h
  update_primary_multi-IsIndexed t hit value h ((k, row) ∷ []) e =
      rw (e, update_primary_multi)
        (elim (Bool-cases (has t.rows (value_key value) && not (text_eq (value_key value) k))) [
          | inl b ↦ rw b h
          | inr b ↦ rw b (
              rekey_primary-IsIndexed t k row value h
                (Fits-hit_rows hit t.rows t.rows (Fits-self t.rows h.unique) k row [] e))
        ])
  update_primary_multi-IsIndexed t hit value h ((k, row) ∷ (r ∷ rs)) e =
      rw (e, update_primary_multi) h

  pub rows-set_cell :
      (t : Table F) (key column : Text) (row : Row F) (value : Value F)
      → (set_cell t key row column value).rows ≡ put t.rows key (put row column value)
  unfolding set_cell
  rows-set_cell t key column row value = (SameView-update_fast_row _ key column value).rows

  update_rows-IsIndexed :
      (ctx : Context) (hit : Row F → Bool) (column : Text) (value : Value F) (es : Map Text (Row F))
      (at n : ℕ) (t : Table F)
      → Fits es t.rows
      → IsIndexed t
      → IsIndexed (update_rows ctx hit column value es at n t).0
  unfolding update_rows
  update_rows-IsIndexed ctx hit column value [] at n t f h = h
  update_rows-IsIndexed ctx hit column value ((k, row) ∷ es) at n t f h =
      elim (Bool-cases (tick ctx at).1) [
        | inl stop ↦ rw (stop, update_rows) h
        | inr go ↦
            rw (go, update_rows)
              (elim (Bool-cases (hit row)) [
                | inl b ↦
                    rw (b, update_rows)
                      (update_rows-IsIndexed ctx hit column value es (tick ctx at).0 (n + 1)
                        (set_cell t k row column value)
                        (rw (rows-set_cell t k column row value)
                          (Fits-put es t.rows k (put row column value) f.1 f.2))
                        (set_cell-IsIndexed t k column row value h f.0))
                | inr b ↦
                    rw (b, update_rows)
                      (update_rows-IsIndexed ctx hit column value es (tick ctx at).0 n t f.2 h)
              ])
      ]

  update_key-IsIndexed :
      (t : Table F) (is_pk : Bool) (key column : Text) (value : Value F)
      → IsIndexed t
      → IsIndexed (update_key t is_pk key column value).0
  unfolding update_key
  update_key-IsIndexed t is_pk key column value h = elim (Option-cases (get t.rows key)) [
    | inl e ↦ rw (e, update_key) h
    | inr (row, e) ↦
        rw (e, update_key)
          (elim (Bool-cases is_pk) [
            | inl b ↦ rw b (rekey_primary-IsIndexed t key row value h e)
            | inr b ↦ rw b (set_cell-IsIndexed t key column row value h e)
          ])
  ]

  -- Whatever UPDATE does, its errors and the end of its context included, the indexes agree with the
  -- rows after it if they did before, and the rows have each key once.
  pub update-IsIndexed :
      (ctx : Context) (t : Table F) (column : Text) (value : Value F) (wc wv : Text) (is_eq : Bool)
      (hit : Row F → Bool)
      → IsIndexed t
      → IsIndexed (update ctx t column value wc wv is_eq hit).0
  unfolding update
  update-IsIndexed ctx t column value wc wv is_eq hit h =
      let pk = primary_column t.columns in
      let is_pk = text_eq column pk && not (text_eq pk []) in
      elim (Bool-cases (not (text_eq wc []) && text_eq wc pk && is_eq)) [
        | inl b ↦ rw b (update_key-IsIndexed t is_pk wv column value h)
        | inr b ↦ rw b (elim (Bool-cases is_pk) [
          | inl p ↦ rw p (update_primary_multi-IsIndexed t hit value h (hit_rows hit t.rows) refl)
          | inr p ↦ rw p (
              update_rows-IsIndexed ctx hit column value t.rows 0 0 t (Fits-self t.rows h.unique) h)
        ])
      ]
