-- ===== src/Engine/Condition/Parse/Bound.antt =====
-- A WHERE that compares a column with a bound text.
use super_db.Strings.{double_quotes, trim_space}
use super_db.Strings.Trim.{IsVisible, AllVisible, trim_space-AllVisible, trim_space_between}
use super_db.Engine.Bind.{literal}
use super_db.Engine.Fold.{identifier_byte}
use super_db.Engine.Literal.{literal_value}
use super_db.Engine.Literal.Bound.{trim_space-literal}
use super_db.Engine.Condition.{ConditionTerm, op_eq, one}
use super_db.Engine.Condition.Parse.{
  compile_condition, compile_groups, compile_group, compile_term, check_term, expected_of,
  finish_term, split_term, split_or, split_and, column_types,
}
use super_db.Engine.Condition.Parse.Whole.{
  IsName, split_logical-equation, split_condition_term-equation,
}
use super_db.Engine.Value.{Column, ColumnType, Floats}
use super_db.Prelude.Map.{get}
use super_db.Prelude.{
  ℕ, Text, List, some, true, false, ◌∷◌, [], ◌++◌, ◌≡◌, refl, ap, ◌∙◌, sym, arith, append_assoc,
  length, ◌==◌, text_instance, codes, ◌<◌,
}

name-IsVisible : (c : ℕ) → identifier_byte c ≡ true → c < 128 → IsVisible c
unfolding identifier_byte
name-IsVisible c h small = (ground (arith, h), small)

pub name-AllVisible : (name : Text) → IsName name → AllVisible name
name-AllVisible [] h = tt
name-AllVisible (c ∷ name) (i, small, h) = (name-IsVisible c i small, name-AllVisible name h)

-- the predicate `name = 'text'`
abbrev pub equation : Text → Text → Text
equation name t = name ++ (61 ∷ literal t)

trim_space-equation :
    (c : ℕ) (name t : Text)
    → IsName (c ∷ name)
    → trim_space (equation (c ∷ name) t) ≡ equation (c ∷ name) t
trim_space-equation c name t (i, small, h) =
    let whole : equation (c ∷ name) t ≡ c ∷ ((name ++ (61 ∷ 39 ∷ double_quotes t)) ++ (39 ∷ [])) =
      unfold literal in
      ap (◌∷◌ c) (sym (append_assoc name (61 ∷ 39 ∷ double_quotes t) (39 ∷ []))) in
    ap trim_space whole
    ∙ trim_space_between c 39 (name ++ (61 ∷ 39 ∷ double_quotes t)) (name-IsVisible c i small)
        (omega arith, omega arith)
    ∙ sym whole

split_or-equation :
    (c : ℕ) (name t : Text)
    → IsName (c ∷ name)
    → split_or (equation (c ∷ name) t) ≡ equation (c ∷ name) t ∷ []
unfolding split_or
split_or-equation c name t h =
    split_logical-equation b'O' (codes "R ") false (c ∷ name) t h
    ∙ ap (λ (u : Text). u ∷ []) (trim_space-equation c name t h)

split_and-equation :
    (c : ℕ) (name t : Text)
    → IsName (c ∷ name)
    → split_and (equation (c ∷ name) t) ≡ equation (c ∷ name) t ∷ []
unfolding split_and
split_and-equation c name t h =
    split_logical-equation b'A' (codes "ND ") true (c ∷ name) t h
    ∙ ap (λ (u : Text). u ∷ []) (trim_space-equation c name t h)

split_term-equation :
    (name t : Text) → IsName name → split_term (equation name t) ≡ some (name, op_eq, literal t)
unfolding split_term
split_term-equation name t h =
    rw (split_term, split_condition_term-equation name (literal t) h) refl

literal_not_empty : (t : Text) → (length (literal t) == 0) ≡ false
unfolding literal
literal_not_empty t = ground arith

pub name_not_empty : (c : ℕ) (name : Text) → (length (c ∷ name) == 0) ≡ false
name_not_empty c name = ground arith

module _ {F : Type 0} ⦃fl : Floats F⦄ (lower : Text → Text) (cols : List Column) (c : ℕ)
    (name t : Text) (typ : ColumnType) (is_name : IsName (c ∷ name))
    (lowered : lower (c ∷ name) ≡ c ∷ name)
    (typed : get (column_types cols []) (c ∷ name) ≡ some typ) where
  abbrev term_of : Text → ConditionTerm F
  term_of column = record {
    column = column;
    expected = one (literal_value (literal t) typ);
    op = op_eq;
  }

  abbrev term : ConditionTerm F
  term = term_of (c ∷ name)

  check_term-equation :
      check_term {F = F} lower (column_types cols []) (c ∷ name, op_eq, literal t) ≡ some term
  unfolding check_term finish_term expected_of
  check_term-equation =
      rw
        (
          trim_space-AllVisible (c ∷ name) (name-AllVisible (c ∷ name) is_name),
          lowered,
          typed,
          trim_space-literal t,
          literal_not_empty t,
          name_not_empty c name,
        )
        (ap (λ (column : Text). some (term_of column))
          (ap lower (trim_space-AllVisible (c ∷ name) (name-AllVisible (c ∷ name) is_name))
            ∙ lowered))

  compile_term-equation :
      compile_term {F = F} lower (column_types cols []) (equation (c ∷ name) t) ≡ some term
  unfolding compile_term
  compile_term-equation =
      rw (compile_term, split_term-equation (c ∷ name) t is_name) check_term-equation

  compile_group-equation :
      compile_group {F = F} lower (column_types cols []) (equation (c ∷ name) t ∷ [])
      ≡ some (term ∷ [])
  unfolding compile_group
  compile_group-equation = rw (compile_group, compile_term-equation) refl

  compile_groups-equation :
      compile_groups {F = F} lower (column_types cols []) (equation (c ∷ name) t ∷ [])
      ≡ some ((term ∷ []) ∷ [])
  unfolding compile_groups
  compile_groups-equation =
      rw (compile_groups, split_and-equation c name t is_name, compile_group-equation) refl

  -- A WHERE that compares a column of the table with a bound text compiles to one comparison of that column
  -- with what literalValue makes of the text, if the column's name has identifier bytes of ASCII only and is
  -- in lower case.
  pub compile_condition-equation :
      compile_condition {F = F} lower (equation (c ∷ name) t) cols
      ≡ some (
          (record { column = c ∷ name; expected = one (literal_value (literal t) typ); op = op_eq }
            ∷ [])
          ∷ [])
  unfolding compile_condition
  compile_condition-equation =
      rw
        (
          compile_condition,
          trim_space-equation c name t is_name,
          name_not_empty c (name ++ (61 ∷ literal t)),
          split_or-equation c name t is_name,
        )
        compile_groups-equation
