-- ===== src/Engine/Schema/Indexed.antt =====
-- The statements on the schema leave indexes that agree with the rows.
use super_db.Engine.Schema.{
  create_index, build_index, install_index, drop_index, drop_index_on, truncate, clear_indexes,
}
use super_db.Engine.Index.{Index, Indexes, add_key}
use super_db.Engine.Index.Agree.{Agree, shows}
use super_db.Engine.Index.Laws.{posted, member, member-add_key}
use super_db.Engine.Table.{Table}
use super_db.Engine.Table.Frame.{IsIndexed}
use super_db.Engine.Outcome.{Context, tick}
use super_db.Engine.Value.{Floats, Row, cell, value_key, has_column}
use super_db.Prelude.Map.{Map, get, put, has, get-put, get-remove}
use super_db.Prelude.Unique.{Unique}
use super_db.Prelude.{
  ℕ, Text, Option, none, some, true, false, ◌∷◌, [], ◌≡◌, refl, ◌∙◌, arith, Bool-cases,
  Option-cases, inl, inr, text_eq_iff, text_instance, if◌then◌else◌,
}

posted-clear_indexes : (ix : Indexes) (c v k : Text) → posted (clear_indexes ix) c v k ≡ false
unfolding clear_indexes posted get
posted-clear_indexes [] c v k = refl
posted-clear_indexes ((d, index) ∷ ix) c v k = ground (arith, posted-clear_indexes ix c v k)

module _ {F : Type 0} ⦃fl : Floats F⦄ where
  member-build_index :
      (ctx : Context) (column : Text) (at : ℕ) (rows : Map Text (Row F)) (start index : Index)
      (v k : Text)
      → Unique rows
      → build_index ctx column at rows start ≡ some index
      → member (get index v) k
        ≡ (if shows (get rows k) column v then true else member (get start v) k)
  unfolding build_index get
  member-build_index ctx column at [] start index v k u h = ground (arith, h)
  member-build_index ctx column at ((key, row) ∷ rows) start index v k (fresh, u) h =
      elim (Bool-cases (tick ctx at).1) [
        | inl b ↦ absurd (ground (arith, h, b))
        | inr b ↦ ground (
          arith,
          member-build_index ctx column (tick ctx at).0 rows
              (add_key start (value_key (cell row column)) key) index v k u (ground (arith, h, b)),
          member-add_key start (value_key (cell row column)) key v k,
          text_eq_iff key k,
          fresh,
        )
      ]

  installed :
      (t : Table F) (column : Text) (index : Index)
      → ((v k : Text) → member (get index v) k ≡ shows (get t.rows k) column v)
      → Agree t.indexes t.rows
      → Agree (put t.indexes column index) t.rows
  unfolding posted has
  installed t column index built agree c v k =
      ground (arith, get-put t.indexes column index c, text_eq_iff column c, built v k, agree c v k)

  install_index-IsIndexed :
      (ctx : Context) (t : Table F) (name column : Text) (o : Option Index)
      → build_index ctx column 0 t.rows [] ≡ o
      → IsIndexed t
      → IsIndexed (install_index t name column o).0
  unfolding install_index
  install_index-IsIndexed ctx t name column none h before = before
  install_index-IsIndexed ctx t name column (some index) h before = record {
    unique = before.unique;
    agree =
        installed t column index
          (λ v k.
            member-build_index ctx column 0 t.rows [] index v k before.unique h
            ∙ unfold get in ground arith)
          before.agree;
  }

  -- After CREATE INDEX, refused, ended by its context or not, the indexes agree with the rows if they did
  -- before: the new index holds exactly the keys of the rows that have the value.
  pub create_index-IsIndexed :
      (ctx : Context) (t : Table F) (name column : Text)
      → IsIndexed t
      → IsIndexed (create_index ctx t name column).0
  unfolding create_index
  create_index-IsIndexed ctx t name column before =
      elim (Bool-cases (has_column t.columns column)) [
        | inr b ↦ rw (create_index, b) before
        | inl b ↦ elim (Bool-cases (has t.indexes column)) [
          | inl i ↦ rw (create_index, b, i) before
          | inr i ↦ elim (Bool-cases (has t.index_names name)) [
            | inl n ↦ rw (create_index, b, i, n) before
            | inr n ↦
                rw (create_index, b, i, n)
                  (install_index-IsIndexed ctx t name column (build_index ctx column 0 t.rows [])
                    refl before)
          ]
        ]
      ]

  pub drop_index_on-IsIndexed :
      (t : Table F) (column : Text) → IsIndexed t → IsIndexed (drop_index_on t column)
  unfolding drop_index_on posted has
  drop_index_on-IsIndexed t column before = record {
    unique = before.unique;
    agree = λ c v k.
        ground (arith, get-remove t.indexes column c, text_eq_iff column c, before.agree c v k);
  }

  pub drop_index-IsIndexed :
      (t : Table F) (name : Text) → IsIndexed t → IsIndexed (drop_index t name).0
  unfolding drop_index
  drop_index-IsIndexed t name before = elim (Option-cases (get t.index_names name)) [
    | inr (column, e) ↦ rw (drop_index, e) (drop_index_on-IsIndexed t column before)
    | inl e ↦ elim (Bool-cases (has t.indexes name)) [
      | inl b ↦ rw (drop_index, e, b) (drop_index_on-IsIndexed t name before)
      | inr b ↦ rw (drop_index, e, b) before
    ]
  ]

  pub truncate-IsIndexed : (t : Table F) → IsIndexed (truncate t)
  unfolding truncate get
  truncate-IsIndexed t = record {
    unique = tt;
    agree = λ c v k. ground (arith, posted-clear_indexes t.indexes c v k);
  }
