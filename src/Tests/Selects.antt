-- ===== src/Tests/Selects.antt =====
-- SELECT, aggregates and groups at concrete tables.
use super_db.Engine.Aggregate.{AggregateCall, AggregateState, aggregate_fast, aggregate_plain}
use super_db.Engine.Aggregate.Rebuilt.{aggregate_fast-rebuilt}
use super_db.Engine.Condition.{matches_fast, matches_map}
use super_db.Engine.Condition.Parse.Bound.{equation}
use super_db.Engine.Order.{OrderEntry}
use super_db.Engine.Outcome.{background}
use super_db.Engine.Select.Distinct.{Among, NoRepeats}
use super_db.Engine.Select.Once.{select_ordered-distinct}
use super_db.Engine.Select.Zero.{select_ordered-order_zero}
use super_db.Engine.Select.Found.{distinct_lines, found_lines}
use super_db.Engine.Select.Page.{cut}
use super_db.Engine.Select.Plain.{select_ordered-distinct_zero, select_ordered-page}
use super_db.Engine.Select.Rebuilt.{select_fast-page}
use super_db.Engine.Select.Rows.{
  Query, cap_result_rows, missing_column, row_test, select_fast, select_ordered, is_zero,
}
use super_db.Engine.Select.Scan.{Lines, answer, panicked}
use super_db.Engine.Select.{max_int, selected_values}
use super_db.Strings.{double_quotes, trim_space, undouble_quotes}
use super_db.Engine.Fold.{fold_equal_at, index_fold}
use super_db.Engine.Literal.{ends_with, inner, is_null, parse_val, trim_quotes, unquote_literal}
use super_db.Engine.Bind.{literal}
use super_db.Engine.Table.{Table, fast_path_threshold, number_columns, rebuild_fast_path, values_of}
use super_db.Engine.Value.{has_column, text, null, Value}
use super_db.Prelude.Map.{get, put, remove}
use super_db.Prelude.Decimal.{format_uint, format_uint-injective}
use super_db.Engine.Group.{Sums}
use super_db.Engine.Select.Single.{match_fast_term-compiled}
use super_db.Engine.Select.Term.{
  FastTerm, fast_string, match_fast_term, simple_fast_term, split_equals,
}
use super_db.Tests.Conditions.{city-IsName, city-compiled, city_terms, lower, quoted}
use super_db.Tests.Data.{ann, settled, whole_floats}
use super_db.Tests.Orders.{sorting}
use super_db.Prelude.{
  ℕ, Text, List, Bool, none, some, true, false, ◌∷◌, [], ◌≡◌, ◌↔◌, ◌≤◌, text_eq, refl, codes, drop,
  length, ltb, arith, zero, suc, ◌+◌, ◌/◌, text_instance,
}

-- the keys below a number
keys_below : ℕ → List Text
keys_below zero = []
keys_below (suc n) = format_uint n ∷ keys_below n

-- Two rows, and the tombstones of many more
abbrev many : Table ℕ
many = record settled { order = keys_below 300 }

abbrev cities : Query
cities = record {
  names = codes "city" ∷ [];
  distinct = true;
  condition = equation (codes "city") quoted;
  order_column = [];
  descending = false;
  limit = some 2;
  offset = 1;
  max_rows = 5;
}

abbrev unsorted : (OrderEntry ℕ → OrderEntry ℕ → Bool) → List (OrderEntry ℕ) → List (OrderEntry ℕ)
unsorted lt entries = entries

cities_there : missing_column many cities.names ≡ none
unfolding missing_column has_column text_eq
cities_there = refl

many_enough : ltb (length many.order) fast_path_threshold ≡ false
unfolding keys_below
many_enough = refl

many_fit : length many.order ≤ max_int
unfolding keys_below
many_fit = omega arith

select_fast-page_example :
    select_fast background lower sorting unsorted (rebuild_fast_path many) cities none city_terms
    ≡ cap_result_rows 5 (
        cut (some 2) (
          drop 1 (
            distinct_lines true [] (
              found_lines
                (row_test cities city_terms)
                cities.names
                (remove many.rows [])
                many.order))))
select_fast-page_example =
    select_fast-page lower sorting unsorted many cities city_terms city-compiled cities_there
      many_enough (omega arith) (omega arith) many_fit

select_ordered-page_example :
    select_ordered background lower sorting unsorted settled cities city_terms
    ≡ cap_result_rows 5 (
        cut (some 2) (
          drop 1 (
            distinct_lines true []
              (found_lines (row_test cities city_terms) cities.names settled.rows settled.order))))
unfolding is_zero
select_ordered-page_example =
    select_ordered-page lower sorting unsorted settled cities city_terms refl refl refl
      (omega arith) (omega arith) (omega arith)

-- SELECT DISTINCT city FROM people LIMIT 0
abbrev none_of_them : Query
none_of_them = record cities { condition = []; limit = some 0; offset = 0; max_rows = 0 }

ann_there : get settled.rows (codes "1") ≡ some ann
unfolding get text_eq
ann_there = refl

ann_met : row_test none_of_them city_terms ann ≡ true
unfolding row_test
ann_met = refl

select_ordered-distinct_zero_example :
    select_ordered background lower sorting unsorted settled none_of_them city_terms
    ≡ answer (selected_values ann (codes "city" ∷ []) ∷ [])
select_ordered-distinct_zero_example =
    select_ordered-distinct_zero lower sorting unsorted settled none_of_them city_terms (codes "1")
      (codes "2" ∷ []) ann refl refl refl refl refl refl refl ann_there ann_met

abbrev all_cities : Query
all_cities = record none_of_them { limit = none }

select_ordered-distinct_example :
    (lines : Lines ℕ) × (select_ordered background lower sorting unsorted settled all_cities
        city_terms
      ≡ answer lines)
    × NoRepeats lines
    × ((l : List (Value ℕ))
        → Among l (
            found_lines
              (row_test all_cities city_terms)
              all_cities.names
              settled.rows
              settled.order)
          ↔ Among l lines)
select_ordered-distinct_example =
    select_ordered-distinct format_uint-injective lower sorting unsorted settled all_cities
      city_terms refl refl refl refl refl refl (omega arith)

-- SELECT city FROM people ORDER BY id LIMIT 0
abbrev none_in_order : Query
none_in_order = record none_of_them { distinct = false; order_column = codes "id" }

some_found :
    found_lines (row_test none_in_order city_terms) none_in_order.names settled.rows settled.order
    ≡ (text (codes "Oslo") ∷ []) ∷ (text (codes "Rome") ∷ []) ∷ []
unfolding found_lines row_test get text_eq selected_values
some_found = refl

select_ordered-order_zero_example :
    select_ordered background lower sorting unsorted settled none_in_order city_terms ≡ panicked
select_ordered-order_zero_example =
    select_ordered-order_zero lower sorting unsorted settled none_in_order refl refl refl refl refl
      city_terms (text (codes "Oslo") ∷ []) ((text (codes "Rome") ∷ []) ∷ []) refl some_found

abbrev pub naturals : Sums ℕ
naturals = record { zero_total = 0; plus = ◌+◌; over = λ total n. total / n }

-- SUM(id)
abbrev sum_of_ids : AggregateCall
sum_of_ids = record {
  name = codes "sum(id)";
  column = codes "id";
  is_count = false;
  is_sum = true;
  is_avg = false;
  is_min = false;
  is_max = false;
  count_star = false;
}

abbrev nothing_yet : AggregateState ℕ
nothing_yet = record { count = 0; total = 0; min_value = null; max_value = null }

id_there : has_column many.columns (codes "id") ≡ true
unfolding has_column text_eq
id_there = refl

aggregate_fast-rebuilt_example :
    aggregate_fast naturals background
      (λ values. matches_fast city_terms values (rebuild_fast_path many).positions)
      sum_of_ids
      (get (rebuild_fast_path many).positions (codes "id"))
      (rebuild_fast_path many).fast
      0
      nothing_yet
    ≡ aggregate_plain naturals background
        (matches_map city_terms)
        sum_of_ids
        (remove many.rows [])
        many.order
        0
        nothing_yet
aggregate_fast-rebuilt_example =
    aggregate_fast-rebuilt naturals many sum_of_ids city_terms lower
      (equation (codes "city") quoted) nothing_yet city-compiled id_there many_enough

abbrev numbered : Table ℕ
numbered = record settled { positions = number_columns 0 settled.columns [] }

abbrev city_term : FastTerm ℕ
city_term = record { index = 1; expected = text (codes "it's, 'NULL"); kind = fast_string }

city-resolved : simple_fast_term lower (equation (codes "city") quoted) numbered ≡ some city_term
unfolding simple_fast_term literal number_columns get put text_eq double_quotes index_fold
    fold_equal_at split_equals trim_space parse_val is_null unquote_literal ends_with
    undouble_quotes inner trim_quotes
city-resolved = refl

city_column : has_column numbered.columns (codes "city") ≡ true
unfolding has_column text_eq
city_column = refl

match_fast_term-compiled_example :
    match_fast_term (values_of numbered.columns ann) city_term ≡ some (matches_map city_terms ann)
match_fast_term-compiled_example =
    match_fast_term-compiled lower numbered b'c' (codes "ity") quoted city-IsName refl refl ann
      city_terms city_term city_column city-compiled city-resolved
