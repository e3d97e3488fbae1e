-- ===== src/Engine/Condition/Parse/Known.antt =====
-- A compiled condition names columns of the table only.
use super_db.Engine.Condition.{CompiledCondition, ConditionTerm, Expected, Op}
use super_db.Engine.Condition.Parse.{
  Term, check_term, column_types, compile_condition, compile_group, compile_groups, compile_term,
  finish_term, expected_of, split_term, split_and, split_or,
}
use super_db.Engine.Value.{Column, ColumnType, Floats, has_column}
use mathlib.Core.Path.{subst}
use super_db.Strings.{trim_space}
use super_db.Prelude.Map.{Map, get, put, get-put}
use super_db.Prelude.{
  Text, List, Option, none, some, true, ◌∷◌, [], ◌≡◌, ◌⊎◌, refl, ap, ◌∙◌, arith, text_eq,
  Bool-cases, Option-cases, inl, inr, length, text_instance, ◌==◌,
}

unfoldable pub GroupKnown : {F : Type 0} → List Column → List (ConditionTerm F) → Type 0
GroupKnown cols [] = Unit
GroupKnown cols (term ∷ group) = (has_column cols term.column ≡ true) × GroupKnown cols group

-- Each term's column is one of the table's.
unfoldable pub AllKnown : {F : Type 0} → List Column → CompiledCondition F → Type 0
unfolding GroupKnown
AllKnown cols [] = Unit
AllKnown cols (group ∷ c) = GroupKnown cols group × AllKnown cols c

typed_column :
    (cs : List Column) (m : Map Text ColumnType) (name : Text) (typ : ColumnType)
    → get (column_types cs m) name ≡ some typ
    → (has_column cs name ≡ true) ⊎ (get m name ≡ some typ)
unfolding column_types has_column
typed_column [] m name typ h = inr h
typed_column (c ∷ cs) m name typ h = elim (typed_column cs (put m c.name c.type) name typ h) [
  | inl k ↦ inl (ground (arith, k))
  | inr k ↦ elim (Bool-cases (text_eq c.name name)) [
    | inl b ↦ inl (rw b refl)
    | inr b ↦ inr (ground (arith, k, b, get-put m c.name c.type name))
  ]
]

known_column :
    (cs : List Column) (name : Text) (typ : ColumnType)
    → get (column_types cs []) name ≡ some typ
    → has_column cs name ≡ true
unfolding get
known_column cs name typ h = elim (typed_column cs [] name typ h) [
  | inl k ↦ k
  | inr k ↦ ground (arith, k)
]

module _ {F : Type 0} ⦃fl : Floats F⦄ (lower : Text → Text) where
  finish_term_column :
      (column : Text) (op : Op) (e : Option (Expected F)) (term : ConditionTerm F)
      → finish_term lower column op e ≡ some term
      → term.column ≡ column
  unfolding finish_term
  finish_term_column column op none term h = ground (arith, h)
  finish_term_column column op (some e) term h = ground (arith, h)

  check_term_typed :
      (types : Map Text ColumnType) (t : Term) (term : ConditionTerm F)
      → check_term lower types t ≡ some term
      → (typ : ColumnType) × (get types term.column ≡ some typ)
  unfolding check_term
  check_term_typed types (lhs, op, rhs) term h =
      elim (Option-cases (get types (lower (trim_space lhs)))) [
        | inl e ↦ absurd (ground (arith, h, e))
        | inr (typ, e) ↦
            let column : term.column ≡ lower (trim_space lhs) = ground (
              arith,
              h,
              e,
              finish_term_column (lower (trim_space lhs)) op
                  (expected_of lower (trim_space rhs) typ op) term,
            ) in
            (typ, ap (get types) column ∙ e)
      ]

  compile_term_typed :
      (types : Map Text ColumnType) (s : Text) (term : ConditionTerm F)
      → compile_term lower types s ≡ some term
      → (typ : ColumnType) × (get types term.column ≡ some typ)
  unfolding compile_term
  compile_term_typed types s term h = elim (Option-cases (split_term s)) [
    | inl e ↦ absurd (ground (arith, h, e))
    | inr (t, e) ↦ check_term_typed types t term (ground (arith, h, e))
  ]

  compile_group-GroupKnown :
      (cols : List Column) (ss : List Text) (group : List (ConditionTerm F))
      → compile_group lower (column_types cols []) ss ≡ some group
      → GroupKnown cols group
  unfolding compile_group GroupKnown
  compile_group-GroupKnown cols [] group h =
      let e : [] ≡ group = ground (arith, h) in subst (GroupKnown cols) e tt
  compile_group-GroupKnown cols (s ∷ ss) group h =
      elim (Option-cases (compile_term {F = F} lower (column_types cols []) s)) [
        | inl e ↦ absurd (ground (arith, h, e))
        | inr (term, e) ↦
            elim (Option-cases (compile_group {F = F} lower (column_types cols []) ss)) [
              | inl r ↦ absurd (ground (arith, h, e, r))
              | inr (rest, r) ↦
                  let (typ, t) = compile_term_typed (column_types cols []) s term e in
                  let whole : term ∷ rest ≡ group = ground (arith, h, e, r) in
                  subst (GroupKnown cols) whole
                    (known_column cols term.column typ t, compile_group-GroupKnown cols ss rest r)
            ]
      ]

  compile_groups-AllKnown :
      (cols : List Column) (ss : List Text) (c : CompiledCondition F)
      → compile_groups lower (column_types cols []) ss ≡ some c
      → AllKnown cols c
  unfolding compile_groups AllKnown
  compile_groups-AllKnown cols [] c h =
      let e : [] ≡ c = ground (arith, h) in subst (AllKnown cols) e tt
  compile_groups-AllKnown cols (s ∷ ss) c h =
      elim (Option-cases (compile_group {F = F} lower (column_types cols []) (split_and s))) [
        | inl e ↦ absurd (ground (arith, h, e))
        | inr (group, e) ↦
            elim (Option-cases (compile_groups {F = F} lower (column_types cols []) ss)) [
              | inl r ↦ absurd (ground (arith, h, e, r))
              | inr (rest, r) ↦
                  let whole : group ∷ rest ≡ c = ground (arith, h, e, r) in
                  subst (AllKnown cols) whole (
                    compile_group-GroupKnown cols (split_and s) group e,
                    compile_groups-AllKnown cols ss rest r,
                  )
            ]
      ]

  pub compile_condition-AllKnown :
      (expression : Text) (cols : List Column) (c : CompiledCondition F)
      → compile_condition lower expression cols ≡ some c
      → AllKnown cols c
  unfolding compile_condition AllKnown
  compile_condition-AllKnown expression cols c h =
      elim (Bool-cases (length (trim_space expression) == 0)) [
        | inl b ↦ let e : [] ≡ c = ground (arith, h, b) in subst (AllKnown cols) e tt
        | inr b ↦ compile_groups-AllKnown cols (split_or expression) c (ground (arith, h, b))
      ]
