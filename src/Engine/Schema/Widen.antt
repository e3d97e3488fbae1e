-- ===== src/Engine/Schema/Widen.antt =====
-- ALTER TABLE ... ADD COLUMN keeps the agreement of the indexes with the rows however its loop ends.
use super_db.Engine.Schema.Columns.{changed, Unique-each_row, refresh_fast-IsIndexed}
use super_db.Engine.Schema.{add_column, finish_add, each_row}
use super_db.Engine.Index.{Indexes}
use super_db.Engine.Index.Agree.{Agree}
use super_db.Engine.Index.Laws.{posted}
use super_db.Engine.Table.{Table}
use super_db.Engine.Table.Frame.{IsIndexed}
use super_db.Engine.Outcome.{Context, tick}
use super_db.Engine.Value.{Floats, Row, ColumnType, has_column, null}
use super_db.Prelude.Map.{Map, get, put, has, get-put}
use super_db.Prelude.Unique.{Unique}
use super_db.Prelude.{
  ℕ, Text, Bool, true, false, ◌∷◌, [], ◌≡◌, ◌⊎◌, refl, arith, Bool-cases, Option-cases, inl, inr,
  text_eq, text_eq_iff, text_instance, ◌++◌,
}

module _ {F : Type 0} ⦃fl : Floats F⦄ where
  -- Each row was met by the loop or stayed.
  touched-each_row :
      (ctx : Context) (change : Row F → Row F) (at : ℕ) (rows : Map Text (Row F)) (k : Text)
      → (get (each_row ctx change at rows).0 k ≡ get rows k)
        ⊎ (get (each_row ctx change at rows).0 k ≡ changed change (get rows k))
  unfolding each_row get
  touched-each_row ctx change at [] k = inl refl
  touched-each_row ctx change at ((key, row) ∷ rows) k = elim (Bool-cases (tick ctx at).1) [
    | inl b ↦ inl (rw b refl)
    | inr b ↦ elim (Bool-cases (text_eq key k)) [
      | inl same ↦ inr (rw (b, same) refl)
      | inr other ↦ rw (b, other) (touched-each_row ctx change (tick ctx at).0 rows k)
    ]
  ]

  add-Agree :
      (ix : Indexes) (rows rows' : Map Text (Row F)) (column : Text)
      → has ix column ≡ false
      → ((k : Text)
          → (get rows' k ≡ get rows k)
            ⊎ (get rows' k ≡ changed (λ row. put row column null) (get rows k)))
      → Agree ix rows
      → Agree ix rows'
  unfolding posted has
  add-Agree ix rows rows' column free all agree c v k = elim (all k) [
    | inl same ↦ ground (arith, same, agree c v k)
    | inr met ↦ elim (Option-cases (get rows k)) [
      | inl e ↦ ground (arith, e, met, agree c v k)
      | inr (row, e) ↦
          ground (arith, e, met, free, text_eq_iff column c, get-put row column null c, agree c v k)
    ]
  ]

  finish_add-IsIndexed :
      (t : Table F) (x : Map Text (Row F) × Bool)
      → Unique x.0
      → Agree t.indexes x.0
      → IsIndexed (finish_add t x).0
  unfolding finish_add
  finish_add-IsIndexed t (rows, true) u agree = record { unique = u; agree = agree }
  finish_add-IsIndexed t (rows, false) u agree =
      refresh_fast-IsIndexed (record t { rows = rows }) (record { unique = u; agree = agree })

  -- After ADD COLUMN, refused, ended by its context or not, the indexes agree with the rows if they did
  -- before and none stands on a column of that name.
  pub add_column-IsIndexed :
      (ctx : Context) (t : Table F) (column : Text) (typ : ColumnType)
      → has t.indexes column ≡ false
      → IsIndexed t
      → IsIndexed (add_column ctx t column typ).0
  unfolding add_column
  add_column-IsIndexed ctx t column typ free before =
      elim (Bool-cases (has_column t.columns column)) [
        | inl b ↦ rw (add_column, b) before
        | inr b ↦
            rw (add_column, b)
              (finish_add-IsIndexed
                (record t {
                  columns =
                      t.columns ++ (record { name = column; type = typ; primary = false } ∷ []);
                })
                (each_row ctx (λ row. put row column null) 0 t.rows)
                (Unique-each_row ctx (λ row. put row column null) 0 t.rows before.unique)
                (add-Agree t.indexes t.rows (each_row ctx (λ row. put row column null) 0 t.rows).0
                  column free (touched-each_row ctx (λ row. put row column null) 0 t.rows)
                  before.agree))
      ]
