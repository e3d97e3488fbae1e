-- ===== src/Engine/Insert/Parse.antt =====
-- internal/engine/insert.go and insertfast.go: the rows of VALUES, by parseInsertRows and in one pass, and
-- those of INSERT ... SELECT.
pub mod Batch
use super_db.Engine.Fold.{quote_at}
use super_db.Engine.Insert.{InsertRow}
use super_db.Engine.Literal.{parse_val, split_vals}
use super_db.Engine.Value.{
  Column, Floats, Row, Value, ColumnType, has_primary_column, value_key, null, int, float, text,
  bool, int_type, float_type, text_type, bool_type, sprint, counted,
}
use super_db.Engine.Literal.{parse_bool}
use super_db.Prelude.Decimal.{ℤ, pos, negsuc, parse_int}
use super_db.Prelude.Map.{Map, has, put}
use super_db.Strings.{trim_space}
use super_db.Strings.Depth.{down, is_level, up}
use mathlib.Core.Option
use super_db.Prelude.{
  ℕ, drop, Text, List, Bool, Option, none, some, true, false, ◌∷◌, [], ◌++◌, ◌==◌, ◌&&◌, not,
  reverse, if◌then◌else◌, length, text_eq, text_instance, ltb,
}

-- The errors of the two parsers; `bad_value` is parseVal's.
pub data InsertError : Type 0 where
  no_values count_mismatch bad_value type_mismatch key_required duplicate_key : InsertError

pub data Parsed {ℓ} (A : Type ℓ) : Type ℓ where
  parsed : A → Parsed A
  refused : InsertError → Parsed A

-- the loop of `splitRows`: `start` is the text since the row's parenthesis, in reverse, and `skip` says
-- that the byte is the second of a doubled quote
unfoldable pub split_rows_from : Bool → Bool → ℤ → Text → Text → List Text
unfolding quote_at is_level up down
split_rows_from skip quote depth row [] = []
split_rows_from true quote depth row (c ∷ s) = split_rows_from false quote depth (c ∷ row) s
split_rows_from false quote depth row (c ∷ s) = elim (c == 39) [
  | true ↦
      let pair = quote && quote_at s in
      split_rows_from pair (if pair then quote else not quote) depth (c ∷ row) s
  | false ↦ elim quote [
    | true ↦ split_rows_from false true depth (c ∷ row) s
    | false ↦ elim (c == 40) [
      | true ↦ split_rows_from false false (up depth) (if is_level depth then [] else c ∷ row) s
      | false ↦ elim (c == 41) [
        | false ↦ split_rows_from false false depth (c ∷ row) s
        | true ↦
            let rest = split_rows_from false false (down depth) (c ∷ row) s in
            if is_level (down depth) then trim_space (reverse row) ∷ rest else rest
      ]
    ]
  ]
]

-- `splitRows`: the depth is zero behind a parenthesis only where an opening one has set `start`.
unfoldable pub split_rows : Text → List Text
split_rows s = split_rows_from false false (pos 0) [] s

-- `depth >= 1`
at_least_one : ℤ → Bool
at_least_one (pos n) = ltb 0 n
at_least_one (negsuc n) = false

module _ {F : Type 0} ⦃fl : Floats F⦄ where
  -- the loop over the columns: the row and its key
  unfoldable pub fill_row : List Column → List Text → Row F → Text → Parsed (Row F × Text)
  fill_row (c ∷ columns) (field ∷ fields) row key = elim (parse_val {F = F} field c.type) [
    | none ↦ refused bad_value
    | some v ↦ fill_row columns fields (put row c.name v) (if c.primary then value_key v else key)
  ]
  fill_row _ _ row key = parsed (row, key)

  -- from the fields of a row to its `insertRow`, but for the check of duplicates
  unfoldable pub make_row : List Column → List Text → Parsed (InsertRow F)
  unfolding fill_row
  make_row columns fields =
      if length fields == length columns
      then elim (fill_row columns fields [] []) [
        | refused e ↦ refused e
        | parsed (row, key) ↦
            if text_eq key [] && has_primary_column columns
            then refused key_required
            else parsed (record { key = key; row = row })
      ]
      else refused count_mismatch

  -- the loop of `parseInsertRows`
  unfoldable pub parse_groups :
      List Column → Map Text (Unit {0}) → List Text → Parsed (List (InsertRow F))
  unfolding make_row
  parse_groups columns seen [] = parsed []
  parse_groups columns seen (group ∷ groups) = elim (make_row columns (split_vals group)) [
    | refused e ↦ refused e
    | parsed item ↦
        if not (text_eq item.key []) && has seen item.key
        then refused duplicate_key
        else elim (parse_groups columns (if text_eq item.key [] then seen else put seen item.key tt)
            groups) [ refused e ↦ refused e | parsed items ↦ parsed (item ∷ items) ]
  ]

  -- `parseInsertRows`
  unfoldable pub parse_insert_rows : Text → List Column → Parsed (List (InsertRow F))
  unfolding parse_groups
  parse_insert_rows raw columns = elim (split_rows (trim_space raw)) [
    | [] ↦ refused no_values
    | group ∷ groups ↦ parse_groups columns [] (group ∷ groups)
  ]

  keys_of : List (InsertRow F) → Map Text (Unit {0}) → Map Text (Unit {0})
  keys_of [] seen = seen
  keys_of (item ∷ items) seen = keys_of items (put seen item.key tt)

  -- `seen` before the check of a row: it is made from the rows so far when the first check needs it.
  seen_keys : Option (Map Text (Unit {0})) → List (InsertRow F) → Map Text (Unit {0})
  unfolding keys_of
  seen_keys none rows = keys_of rows []
  seen_keys (some seen) rows = seen

  -- `flushRow`: the keys seen, and the rows with the new one
  unfoldable pub flush_row :
      List Column
      → Bool
      → List Text
      → Option (Map Text (Unit {0}))
      → List (InsertRow F)
      → Parsed (Option (Map Text (Unit {0})) × List (InsertRow F))
  unfolding make_row seen_keys
  flush_row columns keep_last fields seen rows = elim (make_row columns fields) [
    | refused e ↦ refused e
    | parsed item ↦
        let added = rows ++ (item ∷ []) in
        let known = seen_keys seen rows in
        if not (text_eq item.key []) && ltb 0 (length rows) && not keep_last
        then (if has known item.key
            then refused duplicate_key
            else parsed (some (put known item.key tt), added))
        else parsed (seen, added)
  ]

  -- The loop of `parseInsertRowsMode`. `open` says that rowStart is set; `fields` holds the spans of the
  -- row and `value` the bytes since valStart, in reverse.
  unfoldable pub parse_mode_from :
      List Column
      → Bool
      → Bool
      → Bool
      → ℤ
      → Bool
      → List Text
      → Text
      → Option (Map Text (Unit {0}))
      → List (InsertRow F)
      → Text
      → Parsed (List (InsertRow F))
  unfolding quote_at is_level up down flush_row at_least_one
  parse_mode_from columns keep skip quote depth opened fields value seen rows [] = elim rows [
    | [] ↦ refused no_values
    | item ∷ items ↦ parsed (item ∷ items)
  ]
  parse_mode_from columns keep true quote depth opened fields value seen rows (c ∷ s) =
      parse_mode_from columns keep false quote depth opened fields (c ∷ value) seen rows s
  parse_mode_from columns keep false quote depth opened fields value seen rows (c ∷ s) =
      elim (c == 39) [
        | true ↦
            let pair = quote && quote_at s in
            parse_mode_from columns keep pair (if pair then quote else not quote) depth opened
              fields (c ∷ value) seen rows s
        | false ↦ elim quote [
          | true ↦
              parse_mode_from columns keep false true depth opened fields (c ∷ value) seen rows s
          | false ↦ elim (c == 40) [
            | true ↦
                let starts = is_level depth in
                parse_mode_from columns keep false false (up depth)
                  (if starts then true else opened) (if starts then [] else fields)
                  (if starts then [] else c ∷ value) seen rows s
            | false ↦ elim (c == 41) [
              | true ↦ elim (is_level (down depth) && opened) [
                | false ↦
                    parse_mode_from columns keep false false (down depth) opened fields (c ∷ value)
                      seen rows s
                | true ↦ elim (flush_row columns keep (fields ++ (reverse value ∷ [])) seen rows) [
                  | refused e ↦ refused e
                  | parsed (seen', rows') ↦
                      parse_mode_from columns keep false false (down depth) false fields (c ∷ value)
                        seen' rows' s
                ]
              ]
              | false ↦
                  let cut = c == 44 && (opened && at_least_one depth) in
                  parse_mode_from columns keep false false depth opened
                    (if cut then fields ++ (reverse value ∷ []) else fields)
                    (if cut then [] else c ∷ value) seen rows s
            ]
          ]
        ]
      ]

  -- `parseInsertRowsMode`
  unfoldable pub parse_insert_rows_mode : Text → List Column → Bool → Parsed (List (InsertRow F))
  unfolding parse_mode_from
  parse_insert_rows_mode raw columns keep_last =
      parse_mode_from columns keep_last false false (pos 0) false [] [] none [] (trim_space raw)

-- What coerceValue asks of float64: whether it is an integer in the range that is tested, and int64 of it
pub record Truncation (F : Type 0) : Type 0 where
  pub is_integral : F → Bool
  pub to_int : F → ℤ

module _ {F : Type 0} ⦃fl : Floats F⦄ (trunc : Truncation F) where
  or_mismatch : Option (Value F) → Parsed (Value F)
  or_mismatch none = refused type_mismatch
  or_mismatch (some v) = parsed v

  to_int_value : Value F → Option (Value F)
  to_int_value (int n) = some (int n)
  to_int_value (float x) = if trunc.is_integral x then some (int (trunc.to_int x)) else none
  to_int_value (text s) = Option.map int (parse_int (trim_space s))
  to_int_value _ = none

  to_float_value : Value F → Option (Value F)
  to_float_value (int n) = some (float (fl.of_int n))
  to_float_value (float x) = some (float x)
  to_float_value (text s) = Option.map float (fl.parse (trim_space s))
  to_float_value _ = none

  to_bool_value : Value F → Option (Value F)
  to_bool_value (bool b) = some (bool b)
  to_bool_value (text s) = Option.map bool (parse_bool (trim_space s))
  to_bool_value _ = none

  to_typed : ColumnType → Value F → Option (Value F)
  unfolding to_int_value to_float_value to_bool_value
  to_typed int_type v = to_int_value v
  to_typed float_type v = to_float_value v
  to_typed text_type v = some (text (sprint v))
  to_typed bool_type v = to_bool_value v

  -- `coerceValue`
  unfoldable pub coerce_value : Value F → ColumnType → Parsed (Value F)
  unfolding or_mismatch to_typed
  coerce_value null typ = parsed null
  coerce_value v typ = or_mismatch (to_typed typ v)

  -- the loop of `insertSelect` over the columns; a line that is too short gives nil
  unfoldable pub fill_line : List Column → List (Value F) → Row F → Text → Parsed (Row F × Text)
  unfolding coerce_value
  fill_line [] line row key = parsed (row, key)
  fill_line (c ∷ columns) line row key =
      let v : Value F = elim line [ [] ↦ null | x ∷ xs ↦ x ] in
      elim (coerce_value v c.type) [
        | refused e ↦ refused e
        | parsed cv ↦
            fill_line columns (drop 1 line) (put row c.name cv)
              (if c.primary then value_key cv else key)
      ]

  -- the loop over the lines of the SELECT
  unfoldable pub rows_of_lines : List Column → List (List (Value F)) → Parsed (List (InsertRow F))
  unfolding fill_line
  rows_of_lines columns [] = parsed []
  rows_of_lines columns (line ∷ lines) = elim (fill_line columns line [] []) [
    | refused e ↦ refused e
    | parsed (row, key) ↦
        if text_eq key [] && has_primary_column columns
        then refused key_required
        else elim (rows_of_lines columns lines) [
          | refused e ↦ refused e
          | parsed items ↦ parsed (record { key = key; row = row } ∷ items)
        ]
  ]
