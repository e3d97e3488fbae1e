-- ===== src/Engine/Condition/Fast.antt =====
-- A condition on the values of the fast array decides what it decides on the row.
use mathlib.Core.Option
use super_db.Engine.Condition.{
  CompiledCondition, ConditionTerm, all_fast, all_map, at_column, condition_value_compare,
  matches_fast, matches_map,
}
use super_db.Engine.Condition.Parse.{compile_condition}
use super_db.Engine.Condition.Parse.Known.{AllKnown, GroupKnown, compile_condition-AllKnown}
use super_db.Engine.Table.{number_columns, values_of}
use super_db.Engine.Value.{Column, Floats, Row, cell, has_column}
use super_db.Prelude.Map.{Map, get, put, get-put}
use super_db.Prelude.{
  ℕ, Text, List, some, true, false, ◌∷◌, [], ◌≡◌, refl, ap, ◌∙◌, arith, ◌+◌, text_eq_iff, get_elem?,
  Bool-cases, inl, inr, suc, text_instance,
}

pub absent-number_columns :
    (i : ℕ) (cs : List Column) (m : Map Text ℕ) (name : Text)
    → has_column cs name ≡ false
    → get (number_columns i cs m) name ≡ get m name
unfolding number_columns has_column
absent-number_columns i [] m name h = refl
absent-number_columns i (c ∷ cs) m name h =
    ground
      (arith, h, absent-number_columns (i + 1) cs (put m c.name i) name, get-put m c.name i name)

module _ {F : Type 0} ⦃fl : Floats F⦄ (row : Row F) where
  -- Where a column stands, and that the row's value stands there
  abbrev pub Position : ℕ → List Column → Map Text ℕ → Text → Type 0
  Position i cs m name =
      (j : ℕ) × (get (number_columns i cs m) name ≡ some (i + j))
      × (get_elem? (values_of cs row) j ≡ some (cell row name))

  pub position :
      (i : ℕ) (cs : List Column) (m : Map Text ℕ) (name : Text)
      → has_column cs name ≡ true
      → Position i cs m name
  unfolding number_columns values_of has_column
  position i [] m name h = ground (arith, h)
  position i (c ∷ cs) m name h = elim (Bool-cases (has_column cs name)) [
    | inl b ↦
        let (j, e, v) = position (i + 1) cs (put m c.name i) name b in
        (suc j, e ∙ ap some (omega arith), v)
    | inr b ↦
        let same : c.name ≡ name = ground (arith, h, b, text_eq_iff c.name name) in
        (
          0,
          absent-number_columns (i + 1) cs (put m c.name i) name b
              ∙ ground (arith, same, get-put m c.name i name, text_eq_iff c.name name),
          ap (λ (n : Text). some (cell row n)) same,
        )
  ]

  at_column-known :
      (cols : List Column) (name : Text)
      → has_column cols name ≡ true
      → at_column (values_of cols row) (get (number_columns 0 cols []) name)
        ≡ some (some (cell row name))
  unfolding at_column
  at_column-known cols name k =
      let (j, e, v) = position 0 cols [] name k in
      ap (at_column (values_of cols row)) (e ∙ ap some (omega arith)) ∙ ap (Option.map some) v

  all_fast-all_map :
      (cols : List Column) (group : List (ConditionTerm F))
      → GroupKnown cols group
      → all_fast (values_of cols row) (number_columns 0 cols []) group ≡ some (all_map row group)
  unfolding all_fast all_map GroupKnown
  all_fast-all_map cols [] known = refl
  all_fast-all_map cols (term ∷ group) (k, known) =
      let rest = all_fast-all_map cols group known in
      rw (all_fast, at_column-known cols term.column k)
        (elim (Bool-cases (condition_value_compare (cell row term.column) term.expected term.op)) [
          | inl b ↦ rw b rest
          | inr b ↦ rw b refl
        ])

  matches_fast-known :
      (cols : List Column) (c : CompiledCondition F)
      → AllKnown cols c
      → matches_fast c (values_of cols row) (number_columns 0 cols []) ≡ some (matches_map c row)
  unfolding matches_fast matches_map AllKnown
  matches_fast-known cols [] known = refl
  matches_fast-known cols (group ∷ c) (k, known) =
      rw (matches_fast, all_fast-all_map cols group k)
        (elim (Bool-cases (all_map row group)) [
          | inl b ↦ rw b refl
          | inr b ↦ rw b (matches_fast-known cols c known)
        ])

  -- What a WHERE compiles to decides the same on the values of the fast array as on the row, and never
  -- reads out of range there.
  pub matches_fast-matches_map :
      (lower : Text → Text) (expression : Text) (cols : List Column) (c : CompiledCondition F)
      → compile_condition lower expression cols ≡ some c
      → matches_fast c (values_of cols row) (number_columns 0 cols []) ≡ some (matches_map c row)
  matches_fast-matches_map lower expression cols c h =
      matches_fast-known cols c (compile_condition-AllKnown lower expression cols c h)
