-- ===== src/Engine/Update/Ordered.antt =====
-- UPDATE and the scan order: each row is still scanned once, unless a primary key changes to one that
-- stands in the order as a tombstone. Then its row is scanned twice.
use super_db.Engine.Update.Indexed.{Fits-hit_rows, rows-set_cell}
use super_db.Prelude.Unique.{Unique, Fits, Fits-self, Fits-put}
use super_db.Engine.Outcome.{Context, tick}
use super_db.Engine.Index.{add_index_value, remove_index_value}
use super_db.Prelude.Map.{get, has, put, has-put, remove, has-remove, get-put, Map}
use super_db.Prelude.{
  List, Text, ◌<◌, ◌+◌, text_eq, ◌≡◌, arith, if◌then◌else◌, some, true, false, text_instance, ◌∷◌,
  Bool-cases, text_eq_iff, inl, sym, inr, ◌∙◌, [], Bool, beq_refl, refl, Option-cases, ap, ℕ, ◌&&◌,
  not,
}
use super_db.Engine.Value.{Floats, Row, Value, value_key, cell, primary_column}
use super_db.Engine.Update.{
  rename_first, set_cell, move_row, rekey_primary, hit_rows, update_primary_multi, update_rows,
  update_key, update,
}
use super_db.Engine.Table.{Table}
use super_db.Engine.Table.Frame.{SameView-rekey_fast_row, SameView-update_fast_row}
use super_db.Engine.Table.Order.{IsOrdered, SameView-IsOrdered, occurs, to_nat}

occurs-rename_first :
    (order : List Text) (old new j : Text)
    → 0 < occurs old order
    → occurs j (rename_first order old new) + to_nat (text_eq old j)
      ≡ occurs j order + to_nat (text_eq new j)
unfolding occurs rename_first
occurs-rename_first [] old new j h = absurd (omega arith)
occurs-rename_first (k ∷ ks) old new j h = elim (Bool-cases (text_eq k old)) [
  | inl b ↦ rw b (let e : k ≡ old = (text_eq_iff k old).0 b in rw e (omega arith))
  | inr b ↦ rw b (omega (arith, occurs-rename_first ks old new j (ground (arith, b))))
]

module _ {F : Type 0} ⦃fl : Floats F⦄ where
  set_cell-IsOrdered :
      (t : Table F) (key column : Text) (row : Row F) (value : Value F)
      → IsOrdered t
      → get t.rows key ≡ some row
      → IsOrdered (set_cell t key row column value)
  unfolding set_cell
  set_cell-IsOrdered t key column row value h e =
      let t' = record t {
        rows = put t.rows key (put row column value);
        indexes =
            add_index_value (remove_index_value t.indexes column (value_key (cell row column)) key)
              column (value_key value) key;
      } in
      SameView-IsOrdered {t = t'} (SameView-update_fast_row t' key column value) (record {
        once = λ k l.
            unfold has in
            ground (
              arith,
              h.once k,
              get-put t.rows key (put row column value) k,
              text_eq_iff key k,
              e,
              l,
            );
        clean = λ d k l.
            unfold has in
            ground (
              arith,
              h.clean d k,
              get-put t.rows key (put row column value) k,
              text_eq_iff key k,
              e,
              l,
            );
      })

  order-move_row :
      (t : Table F) (old_key new_key : Text) (row : Row F) (value : Value F)
      → (move_row t old_key new_key row value).order ≡ rename_first t.order old_key new_key
  unfolding move_row
  order-move_row t old_key new_key row value =
      (SameView-rekey_fast_row _ old_key new_key value).order

  has-move_row :
      (t : Table F) (old_key new_key : Text) (row : Row F) (value : Value F) (k : Text)
      → has (move_row t old_key new_key row value).rows k
        ≡ (if text_eq new_key k then true else if text_eq old_key k then false else has t.rows k)
  unfolding move_row
  has-move_row t old_key new_key row value k =
      rw ((SameView-rekey_fast_row _ old_key new_key value).rows) (
        ground (
          arith,
          has-put (remove t.rows old_key) new_key (put row (primary_column t.columns) value) k,
          has-remove t.rows old_key k,
        ))

  dead-move_row :
      (t : Table F) (old_key new_key : Text) (row : Row F) (value : Value F)
      → (move_row t old_key new_key row value).dead ≡ t.dead
  unfolding move_row
  dead-move_row t old_key new_key row value = (SameView-rekey_fast_row _ old_key new_key value).dead

  occurs-move_row :
      (t : Table F) (old_key new_key : Text) (row : Row F) (value : Value F) (k : Text)
      → IsOrdered t
      → has t.rows old_key ≡ true
      → occurs k (move_row t old_key new_key row value).order + to_nat (text_eq old_key k)
        ≡ occurs k t.order + to_nat (text_eq new_key k)
  occurs-move_row t old_key new_key row value k h here =
      rw (order-move_row t old_key new_key row value)
        (occurs-rename_first t.order old_key new_key k (omega (arith, h.once old_key here)))

  move_row-IsOrdered :
      (t : Table F) (old_key new_key : Text) (row : Row F) (value : Value F)
      → IsOrdered t
      → has t.rows old_key ≡ true
      → has t.rows new_key ≡ false
      → occurs new_key t.order ≡ 0
      → IsOrdered (move_row t old_key new_key row value)
  move_row-IsOrdered t old_key new_key row value h here free stale = record {
    once = λ k l. ground (
      arith,
      h.once k,
      h.once old_key here,
      occurs-move_row t old_key new_key row value k h here,
      has-move_row t old_key new_key row value k,
      text_eq_iff new_key k,
      text_eq_iff old_key k,
      l,
      stale,
      here,
      free,
    );
    clean = λ d k l. ground (
      arith,
      h.clean (sym (dead-move_row t old_key new_key row value) ∙ d) k,
      h.once old_key here,
      occurs-move_row t old_key new_key row value k h here,
      has-move_row t old_key new_key row value k,
      text_eq_iff new_key k,
      text_eq_iff old_key k,
      l,
      stale,
      here,
      free,
    );
  }

  pub ne_of_has :
      (rows : Map Text (Row F)) (j k : Text)
      → has rows j ≡ false
      → has rows k ≡ true
      → text_eq j k ≡ false
  ne_of_has rows j k free here = elim (Bool-cases (text_eq j k)) [
    | inl b ↦ let e : j ≡ k = (text_eq_iff j k).0 b in cc (ap (has rows) e)
    | inr b ↦ b
  ]

  -- The new key has no row and stands in the order as a tombstone: after the change of key the row is
  -- there, and its key stands in the order twice.
  pub rekey_primary_tombstone :
      (t : Table F) (old_key : Text) (row : Row F) (value : Value F)
      → IsOrdered t
      → get t.rows old_key ≡ some row
      → has t.rows (value_key value) ≡ false
      → occurs (value_key value) t.order ≡ 1
      → (has (rekey_primary t old_key row value).0.rows (value_key value) ≡ true)
        × (occurs (value_key value) (rekey_primary t old_key row value).0.order ≡ 2)
  unfolding rekey_primary
  rekey_primary_tombstone t old_key row value h e free stale =
      let here : has t.rows old_key ≡ true = unfold has in rw e refl in
      let new_key = value_key value in
      let moves : text_eq new_key old_key ≡ false = ne_of_has t.rows new_key old_key free here in
      rw (moves, free)
        (
          rw (has-move_row t old_key new_key row value new_key, beq_refl new_key),
          ground (
            arith,
            occurs-move_row t old_key new_key row value new_key h here,
            stale,
            moves,
            text_eq_iff new_key old_key,
            text_eq_iff old_key new_key,
            beq_refl new_key,
          ),
        )

  pub rekey_primary-IsOrdered :
      (t : Table F) (old_key : Text) (row : Row F) (value : Value F)
      → IsOrdered t
      → get t.rows old_key ≡ some row
      → (has t.rows (value_key value) ≡ false → occurs (value_key value) t.order ≡ 0)
      → IsOrdered (rekey_primary t old_key row value).0
  unfolding rekey_primary
  rekey_primary-IsOrdered t old_key row value h e stale =
      elim (Bool-cases (text_eq (value_key value) old_key)) [
        | inl same ↦ rw same (set_cell-IsOrdered t old_key (primary_column t.columns) row value h e)
        | inr other ↦ rw other (elim (Bool-cases (has t.rows (value_key value))) [
          | inl taken ↦ rw taken h
          | inr free ↦ rw free (
              move_row-IsOrdered t old_key (value_key value) row value h (unfold has in rw e refl)
                free (stale free))
        ])
      ]

  update_primary_multi-IsOrdered :
      (t : Table F) (hit : Row F → Bool) (value : Value F)
      → IsOrdered t
      → Unique t.rows
      → (has t.rows (value_key value) ≡ false → occurs (value_key value) t.order ≡ 0)
      → (found : List (Text × Row F)) → hit_rows hit t.rows ≡ found
      → IsOrdered (update_primary_multi t hit value).0
  unfolding update_primary_multi
  update_primary_multi-IsOrdered t hit value h u stale [] e = rw (e, update_primary_multi) h
  update_primary_multi-IsOrdered t hit value h u stale ((k, row) ∷ []) e =
      rw (e, update_primary_multi)
        (elim (Bool-cases (has t.rows (value_key value) && not (text_eq (value_key value) k))) [
          | inl b ↦ rw b h
          | inr b ↦ rw b (
              rekey_primary-IsOrdered t k row value h
                (Fits-hit_rows hit t.rows t.rows (Fits-self t.rows u) k row [] e) stale)
        ])
  update_primary_multi-IsOrdered t hit value h u stale ((k, row) ∷ (r ∷ rs)) e =
      rw (e, update_primary_multi) h

  update_rows-IsOrdered :
      (ctx : Context) (hit : Row F → Bool) (column : Text) (value : Value F) (es : Map Text (Row F))
      (at n : ℕ) (t : Table F)
      → Fits es t.rows
      → IsOrdered t
      → IsOrdered (update_rows ctx hit column value es at n t).0
  unfolding update_rows
  update_rows-IsOrdered ctx hit column value [] at n t f h = h
  update_rows-IsOrdered ctx hit column value ((k, row) ∷ es) at n t f h =
      elim (Bool-cases (tick ctx at).1) [
        | inl stop ↦ rw (stop, update_rows) h
        | inr go ↦
            rw (go, update_rows)
              (elim (Bool-cases (hit row)) [
                | inl b ↦
                    rw (b, update_rows)
                      (update_rows-IsOrdered ctx hit column value es (tick ctx at).0 (n + 1)
                        (set_cell t k row column value)
                        (rw (rows-set_cell t k column row value)
                          (Fits-put es t.rows k (put row column value) f.1 f.2))
                        (set_cell-IsOrdered t k column row value h f.0))
                | inr b ↦
                    rw (b, update_rows)
                      (update_rows-IsOrdered ctx hit column value es (tick ctx at).0 n t f.2 h)
              ])
      ]

  update_key-IsOrdered :
      (t : Table F) (is_pk : Bool) (key column : Text) (value : Value F)
      → IsOrdered t
      → (has t.rows (value_key value) ≡ false → occurs (value_key value) t.order ≡ 0)
      → IsOrdered (update_key t is_pk key column value).0
  unfolding update_key
  update_key-IsOrdered t is_pk key column value h stale = elim (Option-cases (get t.rows key)) [
    | inl e ↦ rw (e, update_key) h
    | inr (row, e) ↦
        rw (e, update_key)
          (elim (Bool-cases is_pk) [
            | inl b ↦ rw b (rekey_primary-IsOrdered t key row value h e stale)
            | inr b ↦ rw b (set_cell-IsOrdered t key column row value h e)
          ])
  ]

  -- Whatever UPDATE does, its errors and the end of its context included, each row is scanned once
  -- after it if that was so before, the rows have each key once, and the key of the new value does not
  -- stand in the order as a tombstone.
  pub update-IsOrdered :
      (ctx : Context) (t : Table F) (column : Text) (value : Value F) (wc wv : Text) (is_eq : Bool)
      (hit : Row F → Bool)
      → IsOrdered t
      → Unique t.rows
      → (has t.rows (value_key value) ≡ false → occurs (value_key value) t.order ≡ 0)
      → IsOrdered (update ctx t column value wc wv is_eq hit).0
  unfolding update
  update-IsOrdered ctx t column value wc wv is_eq hit h u stale =
      let pk = primary_column t.columns in
      let is_pk = text_eq column pk && not (text_eq pk []) in
      elim (Bool-cases (not (text_eq wc []) && text_eq wc pk && is_eq)) [
        | inl b ↦ rw b (update_key-IsOrdered t is_pk wv column value h stale)
        | inr b ↦ rw b (elim (Bool-cases is_pk) [
          | inl p ↦
              rw p (update_primary_multi-IsOrdered t hit value h u stale (hit_rows hit t.rows) refl)
          | inr p ↦
              rw p (update_rows-IsOrdered ctx hit column value t.rows 0 0 t (Fits-self t.rows u) h)
        ])
      ]
