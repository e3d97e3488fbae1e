-- ===== src/Engine/Delete/Ordered.antt =====
-- DELETE keeps the scan order: the rows that stay are scanned once each.
use super_db.Engine.Delete.Indexed.{SameView-reap_fast}
use super_db.Prelude.Map.{has, get, has-remove, remove, get-remove}
use super_db.Engine.Outcome.{Context, ok, tick, fail, cancelled}
use super_db.Prelude.{
  List, Text, Option-cases, Bool, arith, ◌≡◌, inl, true, ℕ, inr, text_instance, ◌+◌, false, ◌∷◌,
  none, text_eq_iff, some, ◌++◌, [], Bool-cases, length, not, text_eq, ◌≤◌, ◌&&◌, length-append,
  refl, drop, length-drop, ◌∙◌, ap,
}
use super_db.Engine.Value.{Floats, Row, primary_column}
use super_db.Engine.Delete.{bury_row, delete_key, drop_row, delete_rows, delete_scan, delete}
use super_db.Engine.Table.{Table}
use super_db.Engine.Table.Frame.{SameView-remove_fast_row}
use super_db.Engine.Table.Order.{
  IsOrdered, SameView-IsOrdered, occurs, compact_order-IsOrdered, occurs-snoc,
}

module _ {F : Type 0} ⦃fl : Floats F⦄ where
  bury_row-IsOrdered :
      (t : Table F) (key : Text) (row : Row F) → IsOrdered t → IsOrdered (bury_row t key row)
  unfolding bury_row
  bury_row-IsOrdered t key row h = record {
    once = λ k l. ground (arith, h.once k, has-remove t.rows key k, l);
    clean = λ d k l. absurd (omega (arith, d));
  }

  delete_key-IsOrdered : (t : Table F) (key : Text) → IsOrdered t → IsOrdered (delete_key t key).0
  unfolding delete_key
  delete_key-IsOrdered t key h = elim (Option-cases (get t.rows key)) [
    | inl e ↦ rw (e, delete_key) h
    | inr (row, e) ↦
        rw (e, delete_key)
          (SameView-IsOrdered (SameView-reap_fast _) (
            compact_order-IsOrdered _ (
              SameView-IsOrdered (SameView-remove_fast_row _ key)
                (bury_row-IsOrdered t key row h))))
  ]

  -- What holds in the loop: `remaining` has the live keys that were passed, and nothing else.
  record IsScanned (t : Table F) (keys remaining : List Text) : Type 0 where
    split : (k : Text) → has t.rows k ≡ true → occurs k remaining + occurs k keys ≡ 1
    kept : (k : Text) → has t.rows k ≡ false → occurs k remaining ≡ 0

  rows-drop_row :
      (t : Table F) (key : Text) (row : Row F) → (drop_row t key row).rows ≡ remove t.rows key
  unfolding drop_row
  rows-drop_row t key row = (SameView-remove_fast_row _ key).rows

  view-drop_row :
      (t : Table F) (key : Text) (row : Row F)
      → ((drop_row t key row).order ≡ t.order) × ((drop_row t key row).dead ≡ t.dead)
  unfolding drop_row
  view-drop_row t key row =
      ((SameView-remove_fast_row _ key).order, (SameView-remove_fast_row _ key).dead)

  delete_rows-IsOrdered :
      (ctx : Context) (hit : Row F → Bool) (keys : List Text) (at : ℕ) (remaining : List Text)
      (n : ℕ) (t : Table F) (m : ℕ)
      → IsScanned t keys remaining
      → (delete_rows ctx hit keys at remaining n t).1 ≡ ok m
      → IsOrdered (delete_rows ctx hit keys at remaining n t).0
  unfolding delete_rows occurs
  delete_rows-IsOrdered ctx hit [] at remaining n t m s e =
      let done = record t { order = remaining; dead = 0 } in
      SameView-IsOrdered {t = done} (SameView-reap_fast done)
        (record { once = λ k l. omega (arith, s.split k l); clean = λ d k l. s.kept k l })
  delete_rows-IsOrdered ctx hit (j ∷ js) at remaining n t m s e =
      elim (Bool-cases (tick ctx at).1) [
        | inl stop ↦ absurd (ground (arith, stop, e))
        | inr go ↦
            rw (go, delete_rows)
              (elim (Option-cases (get t.rows j)) [
                | inl none_here ↦
                    rw (none_here, delete_rows)
                      (delete_rows-IsOrdered ctx hit js (tick ctx at).0 remaining n t m
                        (passed none_here) (ground (arith, go, none_here, e)))
                | inr (row, here) ↦
                    rw (here, delete_rows)
                      (elim (Bool-cases (hit row)) [
                        | inl b ↦
                            rw (b, delete_rows)
                              (delete_rows-IsOrdered ctx hit js (tick ctx at).0 remaining (n + 1)
                                (drop_row t j row) m (dropped row here)
                                (ground (arith, go, here, b, e)))
                        | inr b ↦
                            rw (b, delete_rows)
                              (delete_rows-IsOrdered ctx hit js (tick ctx at).0
                                (remaining ++ (j ∷ [])) n t m (kept_one row here)
                                (ground (arith, go, here, b, e)))
                      ])
              ])
      ]
    where
      passed : get t.rows j ≡ none → IsScanned t js remaining
      passed none_here = record {
        split = λ k l. unfold has in ground (arith, s.split k l, text_eq_iff j k, none_here, l);
        kept = s.kept;
      }

      dropped : (row : Row F) → get t.rows j ≡ some row → IsScanned (drop_row t j row) js remaining
      dropped row here = record {
        split = λ k l.
            unfold has in
            ground (
              arith,
              s.split k,
              text_eq_iff j k,
              here,
              l,
              rows-drop_row t j row,
              get-remove t.rows j k,
            );
        kept = λ k l.
            unfold has in
            ground (
              arith,
              s.kept k,
              s.split k,
              text_eq_iff j k,
              here,
              l,
              rows-drop_row t j row,
              get-remove t.rows j k,
            );
      }

      kept_one : (row : Row F) → get t.rows j ≡ some row → IsScanned t js (remaining ++ (j ∷ []))
      kept_one row here = record {
        split = λ k l. ground (arith, s.split k l, occurs-snoc k remaining j);
        kept = λ k l.
            unfold has in
            ground (arith, s.kept k l, occurs-snoc k remaining j, text_eq_iff j k, here, l);
      }

  -- A DELETE that is not ended by its context keeps the order: after it every row is scanned once, and
  -- with no tombstones counted nothing else stands in the order, if that was so before.
  pub delete-IsOrdered :
      (ctx : Context) (t : Table F) (column value : Text) (is_eq : Bool) (hit : Row F → Bool)
      (m : ℕ)
      → IsOrdered t
      → (delete ctx t column value is_eq hit).1 ≡ ok m
      → IsOrdered (delete ctx t column value is_eq hit).0
  unfolding delete delete_scan
  delete-IsOrdered ctx t column value is_eq hit m h e =
      elim (Bool-cases
        (not (text_eq column []) && text_eq column (primary_column t.columns) && is_eq)) [
          | inl b ↦ rw b (delete_key-IsOrdered t value h)
          | inr b ↦ rw b (
              delete_rows-IsOrdered ctx hit t.order 0 [] 0 t m
                (record {
                  split = λ k l. unfold occurs in omega (arith, h.once k l);
                  kept = λ k l. unfold occurs in refl;
                })
                (ground (arith, b, e)))
        ]

  -- The loop writes over the order that it reads, but a slice keeps its length: a scan that is ended by
  -- its context leaves an order as long as before and counts none of the rows it dropped as tombstones.
  delete_rows_cancelled :
      (ctx : Context) (hit : Row F → Bool) (keys : List Text) (at : ℕ) (remaining : List Text)
      (n : ℕ) (t : Table F)
      → length remaining + length keys ≤ length t.order
      → (delete_rows ctx hit keys at remaining n t).1 ≡ fail cancelled
      → (length (delete_rows ctx hit keys at remaining n t).0.order ≡ length t.order)
        × ((delete_rows ctx hit keys at remaining n t).0.dead ≡ t.dead)
  unfolding delete_rows
  delete_rows_cancelled ctx hit [] at remaining n t s e = absurd (ground (arith, e))
  delete_rows_cancelled ctx hit (j ∷ js) at remaining n t s e = elim (Bool-cases (tick ctx at).1) [
    | inl stop ↦
        rw (stop, delete_rows)
          (
            omega (
              arith,
              length-append remaining (drop (length remaining) t.order),
              length-drop (length remaining) t.order,
            ),
            refl,
          )
    | inr go ↦
        rw (go, delete_rows)
          (elim (Option-cases (get t.rows j)) [
            | inl none_here ↦
                rw (none_here, delete_rows)
                  (delete_rows_cancelled ctx hit js (tick ctx at).0 remaining n t (omega arith)
                    (ground (arith, go, none_here, e)))
            | inr (row, here) ↦
                rw (here, delete_rows)
                  (elim (Bool-cases (hit row)) [
                    | inl b ↦
                        let (order, dead) = view-drop_row t j row in
                        let (long, uncounted) =
                          delete_rows_cancelled ctx hit js (tick ctx at).0 remaining (n + 1)
                            (drop_row t j row) (rw order (omega arith))
                            (ground (arith, go, here, b, e)) in
                        rw (b, delete_rows) (long ∙ ap length order, uncounted ∙ dead)
                    | inr b ↦
                        rw (b, delete_rows)
                          (delete_rows_cancelled ctx hit js (tick ctx at).0 (remaining ++ (j ∷ []))
                            n t (omega (arith, length-append remaining (j ∷ [])))
                            (ground (arith, go, here, b, e)))
                  ])
          ])
  ]

  -- A DELETE scan that is ended by its context leaves an order exactly as long as before, and counts no
  -- tombstone for the rows that it had already deleted.
  pub delete_scan_cancelled :
      (ctx : Context) (hit : Row F → Bool) (t : Table F)
      → (delete_scan ctx hit t).1 ≡ fail cancelled
      → (length (delete_scan ctx hit t).0.order ≡ length t.order)
        × ((delete_scan ctx hit t).0.dead ≡ t.dead)
  unfolding delete_scan
  delete_scan_cancelled ctx hit t e = delete_rows_cancelled ctx hit t.order 0 [] 0 t (omega arith) e
