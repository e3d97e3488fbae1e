-- ===== src/Engine/Condition.antt =====
-- internal/engine/parser.go: the evaluation of WHERE conditions on rows.
pub mod Parse
pub mod Mutation
pub mod Fast
use mathlib.Core.Option
use super_db.Strings.{trim_space}
use super_db.Engine.Like.{like_match}
use super_db.Engine.Literal.{unquote_literal, literal_value, parse_in_list, in_list_values}
use super_db.Engine.Fold.{index_keyword, fold_equal_at, identifier_byte, inside_word, quote_at}
use super_db.Engine.Value.{
  Floats, Value, Column, ColumnType, Row, cell, sprint, value_less, text_less, null, counted, int,
  float, text, bool,
}
use super_db.Prelude.Map.{Map, get, get_or}
use super_db.Prelude.Decimal.{pos, negsuc, format_uint}
use super_db.Prelude.{
  ℕ, Text, List, Bool, Option, none, some, true, false, ◌∷◌, [], ◌==◌, ◌&&◌, ◌||◌, not, reverse,
  ◌++◌, codes, text_eq, if◌then◌else◌, length, drop, take, get_elem?, ◌+◌, ◌-◌, ltb, leb, map, zero,
  suc, text_instance,
}

-- The operators of a term
pub data Op : Type 0 where
  op_eq op_ne op_lt op_le op_gt op_ge op_in op_between op_like : Op

-- `conditionTerm.expected`: one value, or the values of a list
pub data Expected (F : Type 0) : Type 0 where
  one : Value F → Expected F
  many : List (Value F) → Expected F

pub record ConditionTerm (F : Type 0) : Type 0 where
  pub column : Text
  pub expected : Expected F
  pub op : Op

-- `compiledCondition`: a disjunction of conjunctions
abbrev pub CompiledCondition : Type 0 → Type 0
CompiledCondition F = List (List (ConditionTerm F))

-- `likeMatch` always gives an answer (Like/Ends).
abbrev pub like : Text → Text → Bool
like pattern s = get_or (like_match pattern s) false

-- `orderedCompare` with a list, which compares what `fmt.Sprint` writes
compare_texts : Text → Text → Op → Bool
compare_texts actual expected op_lt = text_less actual expected
compare_texts actual expected op_le = not (text_less expected actual)
compare_texts actual expected op_gt = text_less expected actual
compare_texts actual expected op_ge = not (text_less actual expected)
compare_texts actual expected _ = false

module _ {F : Type 0} ⦃fl : Floats F⦄ where
  -- `orderedCompare`
  unfoldable pub ordered_compare : Value F → Value F → Op → Bool
  ordered_compare actual expected op_lt = value_less actual expected
  ordered_compare actual expected op_le = not (value_less expected actual)
  ordered_compare actual expected op_gt = value_less expected actual
  ordered_compare actual expected op_ge = not (value_less actual expected)
  ordered_compare actual expected _ = false

  -- `conditionValueEqual` on one value
  unfoldable pub value_equal : Value F → Value F → Bool
  value_equal null null = true
  value_equal (text a) (text b) = text_eq a b
  value_equal (int (pos a)) (int (pos b)) = a == b
  value_equal (int (negsuc a)) (int (negsuc b)) = a == b
  value_equal (float a) (float b) = fl.same a b
  value_equal (bool true) (bool b) = b
  value_equal (bool false) (bool b) = not b
  value_equal actual (counted n) = text_eq (sprint actual) (format_uint n)
  value_equal _ _ = false

  -- what `fmt.Sprint` writes for a []any between its brackets
  sprint_list : List (Value F) → Text
  sprint_list [] = []
  sprint_list (v ∷ []) = sprint v
  sprint_list (v ∷ w ∷ vs) = sprint v ++ (32 ∷ sprint_list (w ∷ vs))

  sprint_brackets : List (Value F) → Text
  unfolding sprint_list
  sprint_brackets vs = 91 ∷ (sprint_list vs ++ (93 ∷ []))

  -- `conditionValueEqual`
  unfoldable pub condition_value_equal : Value F → Expected F → Bool
  unfolding value_equal sprint_brackets
  condition_value_equal actual (one v) = value_equal actual v
  condition_value_equal actual (many vs) = text_eq (sprint actual) (sprint_brackets vs)

  any_equal : Value F → List (Value F) → Bool
  unfolding value_equal
  any_equal actual [] = false
  any_equal actual (v ∷ vs) = value_equal actual v || any_equal actual vs

  unfoldable pub within : Value F → List (Value F) → Bool
  unfolding ordered_compare
  within actual (lo ∷ hi ∷ []) = ordered_compare actual lo op_ge && ordered_compare actual hi op_le
  within actual _ = false

  like_value : Value F → Value F → Bool
  like_value (text s) (text pattern) = like pattern s
  like_value _ _ = false

  -- the default of the switch
  unfoldable pub compare_ordered : Value F → Expected F → Op → Bool
  unfolding ordered_compare compare_texts sprint_brackets
  compare_ordered actual (one v) op = ordered_compare actual v op
  compare_ordered actual (many vs) op = compare_texts (sprint actual) (sprint_brackets vs) op

  -- `conditionValueCompare`
  unfoldable pub condition_value_compare : Value F → Expected F → Op → Bool
  unfolding condition_value_equal any_equal within like_value compare_ordered
  condition_value_compare actual expected op_eq = condition_value_equal actual expected
  condition_value_compare actual expected op_ne = not (condition_value_equal actual expected)
  condition_value_compare actual (many vs) op_in = any_equal actual vs
  condition_value_compare actual (one v) op_in = false
  condition_value_compare actual (many vs) op_between = within actual vs
  condition_value_compare actual (one v) op_between = false
  condition_value_compare actual (one v) op_like = like_value actual v
  condition_value_compare actual (many vs) op_like = false
  condition_value_compare actual expected op_lt = compare_ordered actual expected op_lt
  condition_value_compare actual expected op_le = compare_ordered actual expected op_le
  condition_value_compare actual expected op_gt = compare_ordered actual expected op_gt
  condition_value_compare actual expected op_ge = compare_ordered actual expected op_ge

  -- the loops of `matchesMap`
  unfoldable pub all_map : Row F → List (ConditionTerm F) → Bool
  unfolding condition_value_compare
  all_map row [] = true
  all_map row (term ∷ group) =
      if condition_value_compare (cell row term.column) term.expected term.op
      then all_map row group
      else false

  unfoldable pub matches_map : CompiledCondition F → Row F → Bool
  unfolding all_map
  matches_map [] row = false
  matches_map (group ∷ c) row = if all_map row group then true else matches_map c row

  -- `index, ok := columns[term.column]` and `values[index]`; none where the index is out of range, which
  -- panics
  at_column : List (Value F) → Option ℕ → Option (Option (Value F))
  at_column values none = some none
  at_column values (some i) = Option.map some (get_elem? values i)

  -- the loops of `matchesFast`; none is a panic
  all_fast : List (Value F) → Map Text ℕ → List (ConditionTerm F) → Option Bool
  unfolding condition_value_compare at_column
  all_fast values columns [] = some true
  all_fast values columns (term ∷ group) = elim (at_column values (get columns term.column)) [
    | none ↦ none
    | some none ↦ some false
    | some (some v) ↦
        if condition_value_compare v term.expected term.op
        then all_fast values columns group
        else some false
  ]

  unfoldable pub matches_fast : CompiledCondition F → List (Value F) → Map Text ℕ → Option Bool
  unfolding all_fast
  matches_fast [] values columns = some false
  matches_fast (group ∷ c) values columns = elim (all_fast values columns group) [
    | none ↦ none
    | some true ↦ some true
    | some false ↦ matches_fast c values columns
  ]
