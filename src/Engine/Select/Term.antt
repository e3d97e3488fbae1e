-- ===== src/Engine/Select/Term.antt =====
-- internal/engine/select.go: a WHERE that is one equality, resolved once for the whole scan.
use super_db.Strings.{trim_space}
use super_db.Engine.Condition.{value_equal}
use super_db.Engine.Fold.{index_fold}
use super_db.Engine.Literal.{unquote_literal, parse_val}
use super_db.Engine.Table.{Table}
use super_db.Engine.Value.{
  Floats, Value, Column, ColumnType, value_key, int, float, text, bool, int_type, float_type,
  text_type, bool_type,
}
use super_db.Prelude.Map.{get, get_or, is_some}
use super_db.Prelude.Decimal.{ℤ, pos, negsuc}
use super_db.Prelude.{
  ℕ, Text, List, Bool, Option, none, some, true, false, ◌∷◌, [], ◌==◌, ◌||◌, not, if◌then◌else◌,
  length, text_eq, codes, get_elem?, text_instance,
}

-- `strings.SplitN(s, "=", 2)`, where it gives two parts
unfoldable pub split_equals : Text → Option (Text × Text)
split_equals [] = none
split_equals (c ∷ s) =
    if c == 61
    then some ([], s)
    else elim (split_equals s) [ none ↦ none | some (l, r) ↦ some (c ∷ l, r) ]

-- `indexFold(expression, " AND ") >= 0 || indexFold(expression, " OR ") >= 0`
unfoldable pub is_compound : Text → Bool
is_compound s = is_some (index_fold s (codes " AND ")) || is_some (index_fold s (codes " OR "))

unfoldable pub two_sides : Text → Option (Text × Text)
unfolding is_compound
two_sides expression =
    if length expression == 0 || is_compound expression then none else split_equals expression

-- `kind`
pub data FastKind : Type 0 where
  fast_generic fast_int fast_string fast_bool fast_float : FastKind

-- `fastTerm`
pub record FastTerm (F : Type 0) : Type 0 where
  pub index : ℕ
  pub expected : Value F
  pub kind : FastKind

-- `==` on int64
unfoldable pub int_equal : ℤ → ℤ → Bool
int_equal (pos a) (pos b) = a == b
int_equal (negsuc a) (negsuc b) = a == b
int_equal _ _ = false

-- `==` on bool
unfoldable pub bool_equal : Bool → Bool → Bool
bool_equal true b = b
bool_equal false b = not b

-- `strings.ToLower` is `lower`.
unfoldable pub simple_equality : (Text → Text) → Text → Option (Text × Text)
unfolding two_sides
simple_equality lower expression = elim (two_sides expression) [
  | none ↦ none
  | some (l, r) ↦ some (lower (trim_space l), unquote_literal r)
]

-- the loop of `equalityKey`
unfoldable pub equality_key : (F : Type 0) ⦃fl : Floats F⦄ → List Column → Text → Text → Text
equality_key F [] column value = value
equality_key F (c ∷ cols) column value =
    if text_eq c.name column
    then elim (parse_val {F = F} value c.type) [ none ↦ value | some v ↦ value_key v ]
    else equality_key F cols column value

module _ {F : Type 0} ⦃fl : Floats F⦄ where
  -- the switch of `simpleFastTerm`
  unfoldable pub kind_of : ColumnType → Value F → FastKind
  kind_of int_type (int n) = fast_int
  kind_of text_type (text s) = fast_string
  kind_of bool_type (bool b) = fast_bool
  kind_of float_type (float x) = fast_float
  kind_of _ _ = fast_generic

  unfoldable pub term_at : ColumnType → ℕ → Text → FastTerm F
  unfolding kind_of
  term_at typ index raw =
      let expected : Value F = get_or (parse_val raw typ) (text raw) in
      record { index = index; expected = expected; kind = kind_of typ expected }

  -- `t.columns[column]`, and its type in `t.Columns`
  unfoldable pub resolve : Table F → Text → Text → Option (FastTerm F)
  unfolding term_at
  resolve t column raw = elim (get t.positions column) [
    | none ↦ none
    | some i ↦ elim (get_elem? t.columns i) [ none ↦ none | some c ↦ some (term_at c.type i raw) ]
  ]

  -- `simpleFastTerm`
  unfoldable pub simple_fast_term : (Text → Text) → Text → Table F → Option (FastTerm F)
  unfolding two_sides resolve
  simple_fast_term lower expression t = elim (two_sides expression) [
    | none ↦ none
    | some (l, r) ↦
        let column = lower (trim_space l) in
        if length column == 0 then none else resolve t column (unquote_literal r)
  ]

  -- The comparison of each kind. A term of a kind other than generic expects a value of its type.
  unfoldable pub kind_equal : FastKind → Value F → Value F → Bool
  unfolding int_equal bool_equal
  kind_equal fast_int (int v) (int expected) = int_equal v expected
  kind_equal fast_string (text v) (text expected) = text_eq v expected
  kind_equal fast_bool (bool v) (bool expected) = bool_equal v expected
  kind_equal fast_float (float v) (float expected) = fl.same v expected
  kind_equal fast_generic v expected = value_equal v expected
  kind_equal _ _ _ = false

  -- `matchFastTerm`; none is the panic of an index out of range
  unfoldable pub match_fast_term : List (Value F) → FastTerm F → Option Bool
  unfolding kind_equal
  match_fast_term values term = elim (get_elem? values term.index) [
    | none ↦ none
    | some v ↦ some (kind_equal term.kind v term.expected)
  ]
