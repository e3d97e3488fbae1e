-- ===== src/Engine/Condition/Mutation.antt =====
-- internal/engine/parser.go: the WHERE of a DELETE or an UPDATE, which has one term.
pub mod Safe
use mathlib.Core.Option
use super_db.Strings.{trim_space}
use super_db.Engine.Condition.{
  Op, Expected, op_eq, op_ne, op_lt, op_le, op_gt, op_ge, op_in, op_between, op_like, one, many,
  within, like, compare_ordered,
}
use super_db.Engine.Condition.Parse.{Term, split_term, split_between_bounds}
use super_db.Engine.Literal.{unquote_literal, in_list_values}
use super_db.Engine.Fold.{index_keyword}
use super_db.Engine.Value.{Floats, Value, sprint, bool_text, null, int, float, text, bool}
use super_db.Prelude.{
  ℕ, Text, List, Bool, Option, none, some, true, false, ◌∷◌, [], ◌==◌, ◌&&◌, ◌||◌, not, codes,
  text_eq, if◌then◌else◌, length, drop, ◌+◌,
}

-- what `parseMutationWhere` returns: no WHERE, an error, or the term with its unquoted value
pub data MutationWhere : Type 0 where
  match_all invalid_where : MutationWhere
  where_term : Text → Text → Op → MutationWhere

-- `lower` is strings.ToLower.
finish_where : (Text → Text) → Term → MutationWhere
finish_where lower (lhs, op, rhs) =
    let column = lower (trim_space lhs) in
    let raw = trim_space rhs in
    if length column == 0 || length raw == 0
    then invalid_where
    else where_term column (unquote_literal raw) op

is_found : Option ℕ → Bool
is_found none = false
is_found (some i) = true

-- the checks on the term: a BETWEEN's bounds, or else no AND and no OR in the rest
single_term : Text → Term → Bool
unfolding is_found
single_term rest (lhs, op_between, rhs) = elim (split_between_bounds rhs) [
  | none ↦ false
  | some bounds ↦ true
]
single_term rest (lhs, op, rhs) =
    not (is_found (index_keyword rest (codes "AND")) || is_found (index_keyword rest (codes "OR")))

parse_where : (Text → Text) → Text → MutationWhere
unfolding finish_where single_term
parse_where lower rest = if length rest == 0 then invalid_where else elim (split_term rest) [
  | none ↦ invalid_where
  | some term ↦ if single_term rest term then finish_where lower term else invalid_where
]

-- `parseMutationWhere`
unfoldable pub parse_mutation_where : (Text → Text) → Text → MutationWhere
unfolding parse_where
parse_mutation_where lower s = elim (index_keyword s (codes "WHERE")) [
  | none ↦ match_all
  | some i ↦ parse_where lower (trim_space (drop (i + 5) s))
]

module _ {F : Type 0} ⦃fl : Floats F⦄ where
  -- `matchWhereValue`
  unfoldable pub match_where_value : Value F → Text → Bool
  match_where_value (text s) wv = text_eq s wv
  match_where_value (bool b) wv =
      (b && text_eq wv (codes "true")) || (not b && text_eq wv (codes "false"))
  match_where_value v wv = text_eq (sprint v) wv

  any_value : Value F → List Text → Bool
  unfolding match_where_value
  any_value v [] = false
  any_value v (raw ∷ rest) = match_where_value v raw || any_value v rest

  -- a pattern that is no text is the empty one
  pattern_text : Expected F → Text
  pattern_text (one (text pattern)) = pattern
  pattern_text _ = []

  match_like : Value F → Expected F → Bool
  unfolding pattern_text
  match_like (text s) expected = like (pattern_text expected) s
  match_like _ expected = false

  -- `matchWhereOp`
  unfoldable pub match_where_op : Value F → Text → Expected F → Op → Bool
  unfolding any_value match_like within compare_ordered
  match_where_op v wv expected op_eq = match_where_value v wv
  match_where_op v wv expected op_ne = not (match_where_value v wv)
  match_where_op v wv expected op_in = any_value v (in_list_values wv)
  match_where_op v wv (many bounds) op_between = within v bounds
  match_where_op v wv (one bound) op_between = false
  match_where_op v wv expected op_like = match_like v expected
  match_where_op v wv expected op_lt = compare_ordered v expected op_lt
  match_where_op v wv expected op_le = compare_ordered v expected op_le
  match_where_op v wv expected op_gt = compare_ordered v expected op_gt
  match_where_op v wv expected op_ge = compare_ordered v expected op_ge
