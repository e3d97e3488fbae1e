-- ===== src/Engine/Schema/Columns.antt =====
-- ALTER TABLE leaves indexes that agree with the rows, unless the context ends its loop.
use mathlib.Core.Path.{subst}
use super_db.Engine.Schema.{
  drop_index_on, drop_column, finish_drop, each_row, refresh_fast, cut_column, ok, refused,
  cancelled,
}
use super_db.Engine.Index.{Indexes}
use super_db.Engine.Index.Agree.{Agree}
use super_db.Engine.Index.Laws.{posted}
use super_db.Engine.Table.{Table}
use super_db.Engine.Table.Frame.{IsIndexed, SameRows-IsIndexed, SameView-rebuild_fast_path}
use super_db.Engine.Outcome.{Context, tick}
use super_db.Engine.Value.{Floats, Row, Column, has_column, Column}
use super_db.Prelude.Map.{Map, get, remove, has, get-remove}
use super_db.Prelude.Unique.{Unique}
use super_db.Prelude.{
  ℕ, Text, List, Bool, Option, none, some, true, false, ◌∷◌, [], ◌≡◌, ◌≢◌, ◌⊎◌, refl, ap, ◌∙◌, sym,
  arith, Bool-cases, Option-cases, inl, inr, text_eq_iff, text_instance, length, leb, ltb,
}

module _ {F : Type 0} ⦃fl : Floats F⦄ where
  -- the loops over the rows
  absent-each_row :
      (ctx : Context) (change : Row F → Row F) (at : ℕ) (rows : Map Text (Row F)) (k : Text)
      → get rows k ≡ none
      → get (each_row ctx change at rows).0 k ≡ none
  unfolding each_row get
  absent-each_row ctx change at [] k h = refl
  absent-each_row ctx change at ((key, row) ∷ rows) k h =
      ground (arith, h, absent-each_row ctx change (tick ctx at).0 rows k)

  pub Unique-each_row :
      (ctx : Context) (change : Row F → Row F) (at : ℕ) (rows : Map Text (Row F))
      → Unique rows
      → Unique (each_row ctx change at rows).0
  unfolding each_row
  Unique-each_row ctx change at [] u = tt
  Unique-each_row ctx change at ((key, row) ∷ rows) (fresh, u) = elim (Bool-cases (tick ctx at).1) [
    | inl b ↦ rw b (fresh, u)
    | inr b ↦ rw b (
      absent-each_row ctx change (tick ctx at).0 rows key fresh,
      Unique-each_row ctx change (tick ctx at).0 rows u,
    )
  ]

  abbrev pub changed : (Row F → Row F) → Option (Row F) → Option (Row F)
  changed change none = none
  changed change (some row) = some (change row)

  get-each_row :
      (ctx : Context) (change : Row F → Row F) (at : ℕ) (rows : Map Text (Row F)) (k : Text)
      → (each_row ctx change at rows).1 ≡ false
      → get (each_row ctx change at rows).0 k ≡ changed change (get rows k)
  unfolding each_row get
  get-each_row ctx change at [] k h = refl
  get-each_row ctx change at ((key, row) ∷ rows) k h = elim (Bool-cases (tick ctx at).1) [
    | inl b ↦ absurd (ground (arith, h, b))
    | inr b ↦ ground (arith, b, h, get-each_row ctx change (tick ctx at).0 rows k)
  ]

  pub refresh_fast-IsIndexed : (t : Table F) → IsIndexed t → IsIndexed (refresh_fast t)
  unfolding refresh_fast
  refresh_fast-IsIndexed t before = elim (Bool-cases (ltb 0 (length t.fast))) [
    | inl b ↦ rw b (SameRows-IsIndexed (SameView-rebuild_fast_path t).same before)
    | inr b ↦ rw b before
  ]

  remove-Agree :
      (ix : Indexes) (rows rows' : Map Text (Row F)) (column : Text)
      → ((k : Text) → get rows' k ≡ changed (λ row. remove row column) (get rows k))
      → Agree ix rows
      → Agree (remove ix column) rows'
  unfolding posted has
  remove-Agree ix rows rows' column all agree c v k = elim (Option-cases (get rows k)) [
    | inl e ↦ ground (arith, e, all k, get-remove ix column c, agree c v k)
    | inr (row, e) ↦ ground (
      arith,
      e,
      all k,
      get-remove ix column c,
      text_eq_iff column c,
      get-remove row column c,
      agree c v k,
    )
  ]

  drop_rows-IsIndexed :
      (t : Table F) (column : Text) (ctx : Context) (x : Map Text (Row F) × Bool)
      → each_row ctx (λ row. remove row column) 0 t.rows ≡ x
      → IsIndexed t
      → (cols : List Column) → (finish_drop (record t { columns = cols }) column x).1 ≡ ok
      → IsIndexed (finish_drop (record t { columns = cols }) column x).0
  unfolding finish_drop drop_index_on
  drop_rows-IsIndexed t column ctx (rows, true) e before cols done = absurd (ground (arith, done))
  drop_rows-IsIndexed t column ctx (rows, false) e before cols done =
      let e0 : (each_row ctx (λ row. remove row column) 0 t.rows).0 ≡ rows =
        ap (λ (p : Map Text (Row F) × Bool). p.0) e in
      let e1 : (each_row ctx (λ row. remove row column) 0 t.rows).1 ≡ false =
        ap (λ (p : Map Text (Row F) × Bool). p.1) e in
      refresh_fast-IsIndexed (drop_index_on (record t { columns = cols; rows = rows }) column)
        (record {
          unique =
              subst (λ (m : Map Text (Row F)). Unique m) e0
                (Unique-each_row ctx (λ row. remove row column) 0 t.rows before.unique);
          agree =
              remove-Agree t.indexes t.rows rows column
                (λ k.
                  sym (ap (λ (m : Map Text (Row F)). get m k) e0)
                  ∙ get-each_row ctx (λ row. remove row column) 0 t.rows k e1)
                before.agree;
        })

  kept :
      (t : Table F) (column : Text) (x : Map Text (Row F) × Bool)
      → (finish_drop t column x).1 ≡ refused cancelled
      → ((finish_drop t column x).0.columns ≡ t.columns)
        × ((finish_drop t column x).0.indexes ≡ t.indexes)
        × ((finish_drop t column x).0.fast ≡ t.fast)
        × ((finish_drop t column x).0.positions ≡ t.positions)
  unfolding finish_drop
  kept t column (rows, true) h = (refl, refl, refl, refl)
  kept t column (rows, false) h = absurd (ground (arith, h))

  finish_drop-cases :
      (t : Table F) (column : Text) (x : Map Text (Row F) × Bool)
      → ((finish_drop t column x).1 ≡ refused cancelled) ⊎ ((finish_drop t column x).1 ≡ ok)
  unfolding finish_drop
  finish_drop-cases t column (rows, true) = inl refl
  finish_drop-cases t column (rows, false) = inr refl

  -- After DROP COLUMN that its context does not end, refused or not, the indexes agree with the rows if
  -- they did before.
  pub drop_column-IsIndexed :
      (ctx : Context) (t : Table F) (column : Text)
      → (drop_column ctx t column).1 ≢ refused cancelled
      → IsIndexed t
      → IsIndexed (drop_column ctx t column).0
  unfolding drop_column
  drop_column-IsIndexed ctx t column whole before = elim (Bool-cases (leb (length t.columns) 1)) [
    | inl b ↦ rw (drop_column, b) before
    | inr b ↦ elim (Bool-cases (has_column t.columns column)) [
      | inr c ↦ rw (drop_column, b, c) before
      | inl c ↦
          let x : Map Text (Row F) × Bool = each_row ctx (λ row. remove row column) 0 t.rows in
          elim (finish_drop-cases (record t { columns = cut_column t.columns column }) column x) [
            | inl e ↦ absurd (whole (rw (drop_column, b, c) e))
            | inr e ↦
                rw (drop_column, b, c)
                  (drop_rows-IsIndexed t column ctx x refl before (cut_column t.columns column) e)
          ]
    ]
  ]

  -- A DROP COLUMN that its context ends has taken the column out of the schema, although it is answered
  -- with an error: the index on it and the values of the fast array stay as they were.
  drop_column_cancelled :
      (ctx : Context) (t : Table F) (column : Text)
      → (drop_column ctx t column).1 ≡ refused cancelled
      → ((drop_column ctx t column).0.columns ≡ cut_column t.columns column)
        × ((drop_column ctx t column).0.indexes ≡ t.indexes)
        × ((drop_column ctx t column).0.fast ≡ t.fast)
        × ((drop_column ctx t column).0.positions ≡ t.positions)
  unfolding drop_column
  drop_column_cancelled ctx t column h = elim (Bool-cases (leb (length t.columns) 1)) [
    | inl b ↦ absurd (ground (arith, h, b))
    | inr b ↦ elim (Bool-cases (has_column t.columns column)) [
      | inl c ↦
          rw (drop_column, b, c)
            (kept (record t { columns = cut_column t.columns column }) column
              (each_row ctx (λ row. remove row column) 0 t.rows) (ground (arith, h, b, c)))
      | inr c ↦ absurd (ground (arith, h, b, c))
    ]
  ]
