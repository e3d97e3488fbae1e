-- ===== src/Tests/Conditions.antt =====
-- WHERE expressions and literals at concrete texts.
use super_db.Engine.Bind.{Param, format_param, literal, string, int, null}
use super_db.Engine.Condition.{CompiledCondition, matches_fast, matches_map, op_eq, one}
use super_db.Engine.Condition.Fast.{matches_fast-matches_map}
use super_db.Engine.Condition.Mutation.{parse_mutation_where}
use super_db.Engine.Condition.Mutation.Safe.{IsGuarded, parse_mutation_where-IsGuarded}
use super_db.Engine.Condition.Parse.{compile_condition, column_types}
use super_db.Engine.Condition.Parse.Bare.{IsBare, compile_condition-bare}
use super_db.Engine.Condition.Parse.Bound.{equation, compile_condition-equation}
use super_db.Engine.Condition.Parse.Whole.{IsName}
use super_db.Engine.Fold.{index_keyword, index_keyword_from, fold_equal_at, identifier_byte, upper}
use super_db.Engine.Like.{like_runes, like_match, any_run}
use super_db.Engine.Like.Decides.{matches, like_runes-matches, like_runes_run}
use super_db.Engine.Like.Ends.{like_match-ne-none}
use super_db.Engine.Literal.{is_null, split_vals, parse_val, literal_value}
use super_db.Engine.Literal.Bound.{string_fits, parse_val-format_param}
use super_db.Engine.Literal.Fields.{join_fields, IsPlain, split_vals-format_param}
use super_db.Engine.Table.{number_columns, values_of}
use super_db.Engine.Value.{text_type, text}
use super_db.Prelude.Decimal.{format_uint, format_uint-IsDigits, IsDigits, negsuc}
use super_db.Strings.Trim.{AllVisible}
use super_db.Prelude.Map.{get, put}
use super_db.Prelude.{
  Text, List, codes, text_eq, ℕ, ◌≡◌, ◌≢◌, ◌∷◌, [], refl, none, some, true, false, map, arith,
  text_instance,
}
use super_db.Tests.Data.{whole_floats, ann, nobody}

abbrev pub quoted : Text
quoted = codes "it's, 'NULL'"

-- A name that is in lower case already
abbrev pub lower : Text → Text
lower s = s

abbrev pub city_terms : CompiledCondition ℕ
city_terms =
    (record {
      column = codes "city";
      expected = one (literal_value (literal quoted) text_type);
      op = op_eq;
    }
      ∷ [])
    ∷ []

pub city-IsName : IsName (codes "city")
unfolding identifier_byte
city-IsName = ground arith

city-typed : get (column_types nobody.columns []) (codes "city") ≡ some text_type
unfolding column_types get put text_eq
city-typed = refl

pub city-compiled :
    compile_condition lower (equation (codes "city") quoted) nobody.columns ≡ some city_terms
city-compiled =
    compile_condition-equation lower nobody.columns b'c' (codes "ity") quoted text_type city-IsName
      refl city-typed

-- A text that would end the comparison, if its quotes were not doubled
abbrev ending : Text
ending = codes "x' OR 'y' = 'y' AND z"

ending-IsBare : IsBare ending
unfolding is_null upper text_eq
ending-IsBare = record {
  visible = ((omega arith, omega arith), (omega arith, omega arith));
  unquoted = ((λ e. absurd (omega (arith, e))), (λ e. absurd (omega (arith, e))));
  not_null = refl;
}

compile_condition-bare_example :
    compile_condition {F = ℕ} lower (equation (codes "city") ending) nobody.columns
    ≡ some ((record { column = codes "city"; expected = one (text ending); op = op_eq } ∷ []) ∷ [])
compile_condition-bare_example =
    compile_condition-bare lower nobody.columns b'c' (codes "ity") ending city-IsName refl
      city-typed ending-IsBare

like_runes_run_example :
    (like_runes (any_run ∷ []) (codes "%a") ≡ some false)
    × (matches (any_run ∷ []) (codes "%a") ≡ true)
like_runes_run_example = like_runes_run b'a' []

like_match-ne-none_example : like_match (codes "a%_") (codes "abc") ≢ none
like_match-ne-none_example = like_match-ne-none (codes "a%_") (codes "abc")

like_runes-matches_example :
    like_runes (codes "a%c") (codes "abbc") ≡ some (matches (codes "a%c") (codes "abbc"))
like_runes-matches_example = like_runes-matches (codes "a%c") (codes "abbc") (ground arith)

parse_val-format_param_example :
    parse_val {F = ℕ} (format_param {F = ℕ} (string quoted)) text_type ≡ some (text quoted)
parse_val-format_param_example =
    parse_val-format_param (string quoted) text_type (text quoted) string_fits

digits-IsPlain : (t : Text) → IsDigits t → IsPlain t × AllVisible t
digits-IsPlain [] h = (tt, tt)
digits-IsPlain (c ∷ t) (a, b, h) =
    let (p, v) = digits-IsPlain t h in
    ((ground arith, ground arith, p), ((omega arith, omega arith), v))

formats : (x : ℕ) → IsPlain (whole_floats.format x) × AllVisible (whole_floats.format x)
formats x = digits-IsPlain (format_uint x) (format_uint-IsDigits x)

abbrev values : List (Param ℕ)
values = int (negsuc 6) ∷ null ∷ []

split_vals-format_param_example :
    split_vals (join_fields (map format_param (string quoted ∷ values)))
    ≡ map format_param (string quoted ∷ values)
split_vals-format_param_example = split_vals-format_param formats (string quoted) values

abbrev deletion : Text
deletion = codes "DELETE FROM t WHERE a=1"

parse_mutation_where-IsGuarded_example : IsGuarded lower (parse_mutation_where lower deletion)
unfolding index_keyword index_keyword_from fold_equal_at
parse_mutation_where-IsGuarded_example = parse_mutation_where-IsGuarded lower deletion 14 refl

matches_fast-matches_map_example :
    matches_fast city_terms (values_of nobody.columns ann) (number_columns 0 nobody.columns [])
    ≡ some (matches_map city_terms ann)
matches_fast-matches_map_example =
    matches_fast-matches_map ann lower (equation (codes "city") quoted) nobody.columns city_terms
      city-compiled
