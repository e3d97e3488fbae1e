-- ===== src/Engine/Insert/Keeps.antt =====
-- The loop of `applyInsertRows`: what storing one row keeps, every batch keeps.
use super_db.Engine.Insert.Synthetic.{next_synthetic_key_fresh}
use super_db.Engine.Outcome.{Context, tick}
use super_db.Prelude.Map.{Map, has, get, put, get-put, get_of_has}
use super_db.Prelude.{
  Bool, List, Text, if◌then◌else◌, ◌∷◌, ◌≡◌, ltb, text_eq, true, [], ℕ, ◌⊎◌, arith, false, none,
  Option, length, some, ◌||◌, Option-cases, inl, inr, text_instance, Bool-cases, refl, suc,
}
use super_db.Engine.Value.{Floats, Row}
use super_db.Engine.Insert.{
  InsertRow, check_batch, add_new, store_row, insert_row, insert_rows, finish, apply_insert_rows,
}
use super_db.Engine.Table.{Table, next_synthetic_key, reclaim}
use super_db.Engine.Table.Frame.{SameRows-reclaim, SameView-append_fast_row}

-- The parser gives every row of a batch a key, or none of them.
module _ {F : Type 0} where
  abbrev pub AllKeyed : List (InsertRow F) → Type 0
  AllKeyed [] = Unit
  AllKeyed (item ∷ items) = (text_eq item.key [] ≡ false) × AllKeyed items

  abbrev pub AllUnkeyed : List (InsertRow F) → Type 0
  AllUnkeyed [] = Unit
  AllUnkeyed (item ∷ items) = (text_eq item.key [] ≡ true) × AllUnkeyed items

  -- Each key is free when its row is stored.
  abbrev Ready : Map Text (Row F) → List (InsertRow F) → Type 0
  Ready rows [] = Unit
  Ready rows (item ∷ items) = (get rows item.key ≡ none) × Ready (put rows item.key item.row) items

  check_batch-Ready :
      (ctx : Context) (rows : Map Text (Row F)) (items : List (InsertRow F)) (at : ℕ)
      (batch : Map Text (Unit {0})) (now : Map Text (Row F))
      → AllKeyed items
      → check_batch ctx rows items at batch ≡ none
      → ((k : Text) → has now k ≡ has rows k || has batch k)
      → Ready now items
  unfolding check_batch has
  check_batch-Ready ctx rows [] at batch now keyed passed same = tt
  check_batch-Ready ctx rows (item ∷ items) at batch now keyed passed same = (
    ground (arith, same item.key, keyed.0, passed),
    check_batch-Ready ctx rows items (tick ctx at).0 (put batch item.key tt)
        (put now item.key item.row) keyed.1 (ground (arith, keyed.0, passed))
        (λ k. ground (arith, same k, get-put now item.key item.row k, get-put batch item.key tt k)),
  )

  -- What the parser gives: an upsert, a batch whose rows all have a key, or one where none has.
  abbrev pub IsBatch : Bool → List (InsertRow F) → Type 0
  IsBatch replace items = ((replace ≡ true) ⊎ AllUnkeyed items) ⊎ AllKeyed items

module _ {F : Type 0} ⦃fl : Floats F⦄ where
  rows-store_row :
      (replace : Bool) (t : Table F) (key : Text) (row : Row F)
      → get t.rows key ≡ none
      → (store_row replace t key row).rows ≡ put t.rows key row
  unfolding store_row add_new
  rows-store_row replace t key row e = rw (e, store_row) (SameView-append_fast_row _ key row).rows

  rows-prepared : (t : Table F) → (if ltb 0 t.dead then reclaim t else t).rows ≡ t.rows
  rows-prepared t = ground (arith, SameRows-reclaim t)

module _ {F : Type 0} ⦃fl : Floats F⦄ (P : Table F → Type 0)
    (store : (replace : Bool) (t : Table F) (key : Text) (row : Row F)
      → P t
      → (replace ≡ true) ⊎ (get t.rows key ≡ none)
      → P (store_row replace t key row))
    (count : (t : Table F) (n : ℕ) → P t → P (record t { auto_key = n })) where
  insert_row_synthetic :
      (replace : Bool) (t : Table F) (item : InsertRow F) (t' : Table F)
      → text_eq item.key [] ≡ true
      → insert_row replace t item ≡ some t'
      → P t
      → P t'
  unfolding insert_row
  insert_row_synthetic replace t item t' empty e h =
      elim (Option-cases (next_synthetic_key (suc (length t.rows)) t.rows t.auto_key)) [
        | inl n ↦ absurd (ground (arith, n, e, empty))
        | inr ((key, next), n) ↦
            let at_end : store_row replace (record t { auto_key = next }) key item.row ≡ t' =
              ground (arith, n, e, empty) in
            rw (← at_end) (
              store replace (record t { auto_key = next }) key item.row (count t next h)
                (inr (
                  get_of_has t.rows key
                    (next_synthetic_key_fresh (suc (length t.rows)) t.rows t.auto_key key next n))))
      ]

  insert_row_free :
      (replace : Bool) (t : Table F) (item : InsertRow F) (t' : Table F)
      → (replace ≡ true) ⊎ (text_eq item.key [] ≡ true)
      → insert_row replace t item ≡ some t'
      → P t
      → P t'
  unfolding insert_row
  insert_row_free replace t item t' (inr empty) e h =
      insert_row_synthetic replace t item t' empty e h
  insert_row_free replace t item t' (inl r) e h = elim (Bool-cases (text_eq item.key [])) [
    | inl empty ↦ insert_row_synthetic replace t item t' empty e h
    | inr keyed ↦
        let same : store_row replace t item.key item.row ≡ t' = ground (arith, keyed, e) in
        rw (← same) (store replace t item.key item.row h (inl r))
  ]

  insert_rows_keyed :
      (t : Table F) (items : List (InsertRow F)) (t' : Table F)
      → AllKeyed items
      → Ready t.rows items
      → insert_rows false t items ≡ some t'
      → P t
      → P t'
  unfolding insert_rows insert_row
  insert_rows_keyed t [] t' keyed ready e h = let same : t ≡ t' = ground arith in rw (← same) h
  insert_rows_keyed t (item ∷ items) t' keyed ready e h =
      insert_rows_keyed (store_row false t item.key item.row) items t' keyed.1
        (rw (rows-store_row false t item.key item.row ready.0) ready.1) (ground (arith, keyed.0, e))
        (store false t item.key item.row h (inr ready.0))

  insert_rows_free :
      (replace : Bool) (t : Table F) (items : List (InsertRow F)) (t' : Table F)
      → (replace ≡ true) ⊎ AllUnkeyed items
      → insert_rows replace t items ≡ some t'
      → P t
      → P t'
  unfolding insert_rows
  insert_rows_free replace t [] t' k e h = let same : t ≡ t' = ground arith in rw (← same) h
  insert_rows_free replace t (item ∷ items) t' k e h =
      elim (Option-cases (insert_row replace t item)) [
        | inl n ↦ absurd (ground (arith, n, e))
        | inr (u, n) ↦
            insert_rows_free replace u items t' (rest k) (ground (arith, n, e))
              (insert_row_free replace t item u (first k) n h)
      ]
    where
      rest : (replace ≡ true) ⊎ AllUnkeyed (item ∷ items) → (replace ≡ true) ⊎ AllUnkeyed items
      rest (inl r) = inl r
      rest (inr u) = inr u.1

      first :
          (replace ≡ true) ⊎ AllUnkeyed (item ∷ items)
          → (replace ≡ true) ⊎ (text_eq item.key [] ≡ true)
      first (inl r) = inl r
      first (inr u) = inr u.0

  module _ (Q : Table F → Type 0) (weaken : (t : Table F) → P t → Q t) where
    finish_keeps :
        (t : Table F) (n : ℕ) (o : Option (Table F))
        → Q t
        → ((t' : Table F) → o ≡ some t' → P t')
        → Q (finish t n o).0
    finish_keeps t n none h k = h
    finish_keeps t n (some t') h k = weaken t' (k t' refl)

    -- Every batch that the checks let through ends in `Q`, where `P` holds once the table is made ready.
    pub apply_insert_rows_keeps :
        (ctx : Context) (replace : Bool) (t : Table F) (items : List (InsertRow F))
        → IsBatch replace items
        → Q t
        → P (if ltb 0 t.dead then reclaim t else t)
        → Q (apply_insert_rows ctx replace t items).0
    unfolding apply_insert_rows
    apply_insert_rows_keeps ctx true t items batch h ready =
        finish_keeps t (length items) _ h
          (λ t' e. insert_rows_free true _ items t' (inl refl) e ready)
    apply_insert_rows_keeps ctx false t items (inl k) h ready =
        elim (Option-cases (check_batch ctx t.rows items 0 [])) [
          | inr (x, bad) ↦ rw (bad, apply_insert_rows) h
          | inl good ↦
              rw (good, apply_insert_rows)
                (finish_keeps t (length items) _ h
                  (λ t' e. insert_rows_free false _ items t' k e ready))
        ]
    apply_insert_rows_keeps ctx false t items (inr k) h ready =
        elim (Option-cases (check_batch ctx t.rows items 0 [])) [
          | inr (x, bad) ↦ rw (bad, apply_insert_rows) h
          | inl good ↦
              rw (good, apply_insert_rows)
                (finish_keeps t (length items) _ h (λ t' e.
                  insert_rows_keyed _ items t' k
                    (rw (rows-prepared t) (
                      check_batch-Ready ctx t.rows items 0 [] t.rows k good
                        (λ j. unfold has get in ground arith)))
                    e ready))
        ]
