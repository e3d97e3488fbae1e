-- ===== src/Engine/Select/Single.antt =====
-- A WHERE that is resolved to one comparison decides what it compiles to.
use mathlib.Core.Option.{some-injective, none-ne-some}
use mathlib.Core.Path.{subst}
use super_db.Engine.Bind.{literal}
use super_db.Engine.Condition.{
  CompiledCondition, all_map, condition_value_compare, condition_value_equal, matches_map, one,
  op_eq, value_equal,
}
use super_db.Engine.Condition.Fast.{absent-number_columns, position}
use super_db.Engine.Condition.Parse.{column_types, compile_condition}
use super_db.Engine.Condition.Parse.Bound.{
  compile_condition-equation, equation, name-AllVisible, name_not_empty,
}
use super_db.Engine.Condition.Parse.Whole.{IsName}
use super_db.Engine.Fold.{identifier_byte}
use super_db.Engine.Literal.{literal_value, parse_val, unquote_literal}
use super_db.Engine.Literal.Bound.{trim_space-literal}
use super_db.Engine.Select.Term.{
  FastTerm, bool_equal, int_equal, is_compound, kind_equal, kind_of, match_fast_term, resolve,
  simple_fast_term, split_equals, term_at, two_sides,
}
use super_db.Engine.Table.{Table, number_columns, values_of}
use super_db.Engine.Value.{
  Column, ColumnType, Floats, Row, Value, bool_type, cell, float_type, has_column, int_type, text,
  text_type,
}
use super_db.Prelude.Map.{Map, get, get-put, get_or, put}
use super_db.Strings.{trim_space}
use super_db.Strings.Trim.{trim_space-AllVisible}
use super_db.Prelude.{
  ℕ, Text, List, none, some, true, false, ◌∷◌, [], ◌++◌, ◌≡◌, ◌+◌, refl, ap, ◌∙◌, sym, arith, ◌==◌,
  Bool-cases, inl, inr, text_eq_iff, text_instance, get_elem?, suc,
}

split_equals-name : (name r : Text) → IsName name → split_equals (name ++ (61 ∷ r)) ≡ some (name, r)
unfolding split_equals identifier_byte
split_equals-name [] r h = refl
split_equals-name (c ∷ name) r (i, small, h) =
    let other : (c == 61) ≡ false = ground (arith, i) in rw (other, split_equals-name name r h) refl

absent-column_types :
    (cs : List Column) (m : Map Text ColumnType) (name : Text)
    → has_column cs name ≡ false
    → get (column_types cs m) name ≡ get m name
unfolding column_types has_column
absent-column_types [] m name h = refl
absent-column_types (c ∷ cs) m name h =
    ground
      (arith, h, absent-column_types cs (put m c.name c.type) name, get-put m c.name c.type name)

-- where a column stands, and its type
abbrev Located : ℕ → List Column → Map Text ℕ → Map Text ColumnType → Text → Type 0
Located i cs m types name =
    (j : ℕ) × (c : Column) × (get (number_columns i cs m) name ≡ some (i + j))
    × (get_elem? cs j ≡ some c)
    × (get (column_types cs types) name ≡ some c.type)

located :
    (i : ℕ) (cs : List Column) (m : Map Text ℕ) (types : Map Text ColumnType) (name : Text)
    → has_column cs name ≡ true
    → Located i cs m types name
unfolding number_columns column_types has_column
located i [] m types name h = ground (arith, h)
located i (c ∷ cs) m types name h = elim (Bool-cases (has_column cs name)) [
  | inl b ↦
      let (j, d, e, f, g) = located (i + 1) cs (put m c.name i) (put types c.name c.type) name b in
      (suc j, d, e ∙ ap some (omega arith), f, g)
  | inr b ↦
      let same : c.name ≡ name = ground (arith, h, b, text_eq_iff c.name name) in
      (
        0,
        c,
        absent-number_columns (i + 1) cs (put m c.name i) name b
            ∙ ground (arith, same, get-put m c.name i name, text_eq_iff c.name name),
        refl,
        absent-column_types cs (put types c.name c.type) name b
            ∙ ground (arith, same, get-put types c.name c.type name, text_eq_iff c.name name),
      )
]

same_place : (k j : ℕ) → some (0 + k) ≡ some (0 + j) → k ≡ j
same_place k j e = let sums : 0 + k ≡ 0 + j = some-injective _ _ e in omega arith

module _ {F : Type 0} ⦃fl : Floats F⦄ where
  -- The comparison of a term's kind is the comparison of any two values.
  kind_equal-value_equal :
      (typ : ColumnType) (v e : Value F) → kind_equal (kind_of typ e) v e ≡ value_equal v e
  unfolding kind_equal kind_of value_equal int_equal bool_equal
  kind_equal-value_equal int_type v e = ground arith
  kind_equal-value_equal float_type v e = ground arith
  kind_equal-value_equal text_type v e = ground arith
  kind_equal-value_equal bool_type v e = ground arith

module _ {F : Type 0} ⦃fl : Floats F⦄ (lower : Text → Text) (t : Table F) (c : ℕ) (name s : Text)
    (is_name : IsName (c ∷ name)) (lowered : lower (c ∷ name) ≡ c ∷ name)
    (numbered : t.positions ≡ number_columns 0 t.columns []) where
  two_sides-equation :
      is_compound (equation (c ∷ name) s) ≡ false
      → two_sides (equation (c ∷ name) s) ≡ some (c ∷ name, literal s)
  unfolding two_sides
  two_sides-equation simple =
      rw
        (
          two_sides,
          simple,
          name_not_empty c (name ++ (61 ∷ literal s)),
          split_equals-name (c ∷ name) (literal s) is_name,
        )
        refl

  resolve-located :
      (j : ℕ) (col : Column)
      → get (number_columns 0 t.columns []) (c ∷ name) ≡ some j
      → get_elem? t.columns j ≡ some col
      → resolve t (c ∷ name) (unquote_literal (literal s))
        ≡ some (term_at col.type j (unquote_literal (literal s)))
  unfolding resolve
  resolve-located j col at there = rw (resolve, numbered, at, there) refl

  lowered_name : lower (trim_space (c ∷ name)) ≡ c ∷ name
  lowered_name =
      ap lower (trim_space-AllVisible (c ∷ name) (name-AllVisible (c ∷ name) is_name)) ∙ lowered

  simple_fast_term-resolved :
      is_compound (equation (c ∷ name) s) ≡ false
      → simple_fast_term lower (equation (c ∷ name) s) t
        ≡ resolve t (c ∷ name) (unquote_literal (literal s))
  unfolding simple_fast_term
  simple_fast_term-resolved simple =
      rw (simple_fast_term, two_sides-equation simple, lowered_name, name_not_empty c name) refl

  two_sides-compound :
      is_compound (equation (c ∷ name) s) ≡ true → two_sides (equation (c ∷ name) s) ≡ none
  unfolding two_sides
  two_sides-compound compound =
      rw (two_sides, compound, name_not_empty c (name ++ (61 ∷ literal s))) refl

  simple_fast_term-compound :
      is_compound (equation (c ∷ name) s) ≡ true
      → simple_fast_term lower (equation (c ∷ name) s) t ≡ none
  unfolding simple_fast_term
  simple_fast_term-compound compound = rw (simple_fast_term, two_sides-compound compound) refl

  -- A term that is resolved expects the text's value at the column's place.
  resolved :
      (term : FastTerm F) (j : ℕ) (col : Column)
      → get (number_columns 0 t.columns []) (c ∷ name) ≡ some j
      → get_elem? t.columns j ≡ some col
      → simple_fast_term lower (equation (c ∷ name) s) t ≡ some term
      → term_at col.type j (unquote_literal (literal s)) ≡ term
  resolved term j col at there made = elim (Bool-cases (is_compound (equation (c ∷ name) s))) [
    | inl b ↦ absurd (none-ne-some _ (sym (simple_fast_term-compound b) ∙ made))
    | inr b ↦
        some-injective _ _
          (sym (resolve-located j col at there) ∙ sym (simple_fast_term-resolved b) ∙ made)
  ]

  match-term_at :
      (values : List (Value F)) (v : Value F) (typ : ColumnType) (j : ℕ)
      → get_elem? values j ≡ some v
      → match_fast_term values (term_at typ j (unquote_literal (literal s)))
        ≡ some (value_equal v (literal_value (literal s) typ))
  unfolding match_fast_term term_at literal_value
  match-term_at values v typ j e =
      rw (match_fast_term, e, trim_space-literal s)
        (ap some (
          kind_equal-value_equal typ v (
            get_or (parse_val (unquote_literal (literal s)) typ)
              (text (unquote_literal (literal s))))))

  matches_map-equation :
      (row : Row F) (typ : ColumnType)
      → matches_map
          ((record { column = c ∷ name; expected = one (literal_value (literal s) typ); op = op_eq }
              ∷ [])
            ∷ [])
          row
        ≡ value_equal (cell row (c ∷ name)) (literal_value (literal s) typ)
  unfolding matches_map all_map condition_value_compare condition_value_equal
  matches_map-equation row typ =
      elim (Bool-cases (value_equal (cell row (c ∷ name)) (literal_value (literal s) typ))) [
        | inl b ↦ rw b refl
        | inr b ↦ rw b refl
      ]

  -- For a table whose positions are those of its columns and a WHERE that compares a column of the table
  -- with a bound text, where the column's name has identifier bytes of ASCII only and is in lower case:
  -- if it compiles and is also resolved to one term, then the term decides on a row's values, without a
  -- panic, what the compiled condition decides on the row.
  pub match_fast_term-compiled :
      (row : Row F) (compiled_where : CompiledCondition F) (term : FastTerm F)
      → has_column t.columns (c ∷ name) ≡ true
      → compile_condition lower (equation (c ∷ name) s) t.columns ≡ some compiled_where
      → simple_fast_term lower (equation (c ∷ name) s) t ≡ some term
      → match_fast_term (values_of t.columns row) term ≡ some (matches_map compiled_where row)
  match_fast_term-compiled row compiled_where term known compiled made =
      let (j, col, at, there, typed) = located 0 t.columns [] [] (c ∷ name) known in
      let (k, same, held) = position row 0 t.columns [] (c ∷ name) known in
      let together : k ≡ j = same_place k j (sym same ∙ at) in
      let here =
        subst (λ (i : ℕ). get_elem? (values_of t.columns row) i ≡ some (cell row (c ∷ name)))
          together held in
      ap (match_fast_term (values_of t.columns row))
        (sym (resolved term j col (at ∙ ap some (omega arith)) there made))
      ∙ match-term_at (values_of t.columns row) (cell row (c ∷ name)) col.type j here
      ∙ ap some (sym (matches_map-equation row col.type))
      ∙ ap (λ (d : CompiledCondition F). some (matches_map d row))
          (some-injective _ _ (
            sym (compile_condition-equation lower t.columns c name s col.type is_name lowered typed)
            ∙ compiled))
