-- ===== src/Engine/Condition/Parse.antt =====
-- internal/engine/parser.go: WHERE expressions, parsed into terms.
pub mod Known
pub mod Bound
pub mod Bare
pub mod Whole
use mathlib.Core.Option
use super_db.Strings.{trim_space}
use super_db.Engine.Condition.{
  Op, Expected, ConditionTerm, CompiledCondition, op_eq, op_ne, op_lt, op_le, op_gt, op_ge, op_in,
  op_between, op_like, one, many,
}
use super_db.Engine.Literal.{unquote_literal, literal_value, parse_in_list}
use super_db.Engine.Fold.{index_keyword, fold_equal_at, inside_word, quote_at, word_ends}
use super_db.Engine.Value.{Floats, Column, ColumnType, text}
use super_db.Prelude.Map.{Map, get, put}
use super_db.Prelude.{
  ℕ, Text, List, Bool, Option, none, some, true, false, ◌∷◌, [], ◌==◌, ◌&&◌, ◌||◌, not, reverse,
  ◌++◌, codes, if◌then◌else◌, length, drop, take, ◌+◌, ◌-◌, ltb, zero, suc, text_instance,
}

-- what is read after BETWEEN: blanks, and then no comparison glyph
operand_next : Text → Bool
operand_next [] = false
operand_next (c ∷ s) =
    if c == 32 || (c == 9 || (c == 10 || c == 13))
    then operand_next s
    else not (c == 61 || (c == 60 || (c == 62 || c == 33)))

-- `isBetweenOperator`: `before` is the byte before s
unfoldable pub is_between_operator : Option ℕ → Text → Bool
unfolding operand_next
is_between_operator before s =
    if inside_word before
    then false
    else if not (fold_equal_at s (codes "BETWEEN"))
    then false
    else if not (word_ends (drop 7 s))
    then false
    else operand_next (drop 7 s)

-- The loop of `splitLogical`: `eat` counts the bytes of an operator that was cut out, `skip` says that
-- the byte is the second of a doubled quote, `pending` is betweenPending, `field` is s[start:i] in
-- reverse. Neither test holds at a quote.
unfoldable pub split_logical_from :
    Text → Bool → ℕ → Bool → Bool → ℕ → Option ℕ → Text → Text → List Text
unfolding is_between_operator
split_logical_from needle is_and eat skip quote pending before field [] =
    trim_space (reverse field) ∷ []
split_logical_from needle is_and (suc n) skip quote pending before field (c ∷ s) =
    split_logical_from needle is_and n false quote pending (some c) field s
split_logical_from needle is_and zero true quote pending before field (c ∷ s) =
    split_logical_from needle is_and 0 false quote pending (some c) (c ∷ field) s
split_logical_from needle is_and zero false quote pending before field (c ∷ s) =
    elim (ltb (length (c ∷ s)) (length needle)) [
      | true ↦ trim_space (reverse field ++ (c ∷ s)) ∷ []
      | false ↦ elim (c == 39) [
        | true ↦
            if quote && quote_at s
            then split_logical_from needle is_and 0 true quote pending (some c) (c ∷ field) s
            else split_logical_from needle is_and 0 false (not quote) pending (some c) (c ∷ field) s
        | false ↦ elim quote [
          | true ↦ split_logical_from needle is_and 0 false true pending (some c) (c ∷ field) s
          | false ↦
              let pending' =
                if is_and && is_between_operator before (c ∷ s) then pending + 1 else pending in
              elim (fold_equal_at (c ∷ s) needle) [
                | true ↦ elim (ltb 0 pending') [
                  | true ↦
                      split_logical_from needle is_and 0 false false (pending' - 1) (some c)
                        (c ∷ field) s
                  | false ↦
                      trim_space (reverse field)
                      ∷ split_logical_from needle is_and (length needle - 1) false false pending'
                          (some c) [] s
                ]
                | false ↦
                    split_logical_from needle is_and 0 false false pending' (some c) (c ∷ field) s
              ]
        ]
      ]
    ]

-- `splitLogical(s, "OR")` and `splitLogical(s, "AND")`
unfoldable pub split_or : Text → List Text
split_or s = split_logical_from (codes " OR ") false 0 false false 0 none [] s

unfoldable pub split_and : Text → List Text
split_and s = split_logical_from (codes " AND ") true 0 false false 0 none [] s

-- `opNeOrLe`
unfoldable pub op_ne_or_le : ℕ → Op
op_ne_or_le c = if c == 33 then op_ne else op_le

-- what the switch of `splitConditionTerm` finds at a byte
pub data Glyph : Type 0 where
  no_glyph bad_glyph : Glyph
  glyph : Op → Text → Glyph

next_is : ℕ → Text → Bool
next_is d [] = false
next_is d (c ∷ s) = c == d

glyph_at : ℕ → Text → Glyph
unfolding op_ne_or_le next_is
glyph_at c s =
    if c == 33 || c == 60
    then (if next_is 61 s
        then glyph (op_ne_or_le c) (drop 1 s)
        else if c == 60
        then (if next_is 62 s then glyph op_ne (drop 1 s) else glyph op_lt s)
        else bad_glyph)
    else if c == 62
    then (if next_is 61 s then glyph op_ge (drop 1 s) else glyph op_gt s)
    else if c == 61
    then glyph op_eq s
    else no_glyph

-- a predicate's left side, operator and right side
abbrev pub Term : Type 0
Term = Text × Op × Text

-- the loop of `splitConditionTerm`: `lhs` is s[:i] in reverse
unfoldable pub split_term_from : Bool → Bool → Text → Text → Option Term
unfolding glyph_at
split_term_from skip quote lhs [] = none
split_term_from true quote lhs (c ∷ s) = split_term_from false quote (c ∷ lhs) s
split_term_from false quote lhs (c ∷ s) = elim (c == 39) [
  | true ↦
      if quote && quote_at s
      then split_term_from true quote (c ∷ lhs) s
      else split_term_from false (not quote) (c ∷ lhs) s
  | false ↦ elim quote [
    | true ↦ split_term_from false true (c ∷ lhs) s
    | false ↦ elim (glyph_at c s) [
      | no_glyph ↦ split_term_from false false (c ∷ lhs) s
      | bad_glyph ↦ none
      | glyph op rhs ↦ some (reverse lhs, op, rhs)
    ]
  ]
]

-- `splitConditionTerm`
unfoldable pub split_condition_term : Text → Option Term
split_condition_term s = split_term_from false false [] s

-- the loop of `splitSpecialTerm`: the keyword that is found first
earlier : Option (ℕ × Op × ℕ) → Option ℕ → Op → ℕ → Option (ℕ × Op × ℕ)
earlier best none op size = best
earlier none (some i) op size = some (i, op, size)
earlier (some (b, old, width)) (some i) op size =
    if ltb i b then some (i, op, size) else some (b, old, width)

cut_keyword : Text → Option (ℕ × Op × ℕ) → Option Term
cut_keyword s none = none
cut_keyword s (some (i, op, size)) = some (take i s, op, drop (i + size) s)

-- `splitSpecialTerm`
unfoldable pub split_special_term : Text → Option Term
unfolding earlier cut_keyword
split_special_term s =
    let first = earlier none (index_keyword s (codes "BETWEEN")) op_between 7 in
    let second = earlier first (index_keyword s (codes "IN")) op_in 2 in
    cut_keyword s (earlier second (index_keyword s (codes "LIKE")) op_like 4)

-- the term of a predicate, by its glyph or else by its keyword
unfoldable pub split_term : Text → Option Term
split_term s = elim (split_condition_term s) [ none ↦ split_special_term s | some term ↦ some term ]

two_bounds : List Text → Option (Text × Text)
two_bounds (lo ∷ hi ∷ []) =
    let lo' = trim_space lo in
    let hi' = trim_space hi in if length lo' == 0 || length hi' == 0 then none else some (lo', hi')
two_bounds _ = none

-- `splitBetweenBounds`
unfoldable pub split_between_bounds : Text → Option (Text × Text)
unfolding two_bounds
split_between_bounds raw = elim (index_keyword raw (codes "OR")) [
  | some i ↦ none
  | none ↦ two_bounds (split_and raw)
]

-- `types`: the last column of a name counts
unfoldable pub column_types : List Column → Map Text ColumnType → Map Text ColumnType
column_types [] m = m
column_types (c ∷ cs) m = column_types cs (put m c.name c.type)

-- `lower` is strings.ToLower.
module _ {F : Type 0} ⦃fl : Floats F⦄ (lower : Text → Text) where
  bounds_expected : ColumnType → Option (Text × Text) → Option (Expected F)
  bounds_expected typ none = none
  bounds_expected typ (some (lo, hi)) =
      some (many (literal_value lo typ ∷ literal_value hi typ ∷ []))

  -- the switch of `compileCondition`
  expected_of : Text → ColumnType → Op → Option (Expected F)
  unfolding bounds_expected
  expected_of raw typ op_in = Option.map many (parse_in_list raw typ)
  expected_of raw typ op_between = bounds_expected typ (split_between_bounds raw)
  expected_of raw typ op_like = some (one (text (unquote_literal raw)))
  expected_of raw typ _ = some (one (literal_value raw typ))

  finish_term : Text → Op → Option (Expected F) → Option (ConditionTerm F)
  finish_term column op none = none
  finish_term column op (some expected) =
      some (record { column = column; expected = expected; op = op })

  check_term : Map Text ColumnType → Term → Option (ConditionTerm F)
  unfolding expected_of finish_term
  check_term types (lhs, op, rhs) =
      let column = lower (trim_space lhs) in
      let raw = trim_space rhs in
      if length column == 0 then none else elim (get types column) [
        | none ↦ none
        | some typ ↦
            if length raw == 0 then none else finish_term column op (expected_of raw typ op)
      ]

  compile_term : Map Text ColumnType → Text → Option (ConditionTerm F)
  unfolding check_term
  compile_term types s = elim (split_term s) [ none ↦ none | some term ↦ check_term types term ]

  -- the inner loop of `compileCondition`, and the outer one
  compile_group : Map Text ColumnType → List Text → Option (List (ConditionTerm F))
  unfolding compile_term
  compile_group types [] = some []
  compile_group types (s ∷ ss) = elim (compile_term types s) [
    | none ↦ none
    | some term ↦ Option.map (λ group. term ∷ group) (compile_group types ss)
  ]

  compile_groups : Map Text ColumnType → List Text → Option (CompiledCondition F)
  unfolding compile_group
  compile_groups types [] = some []
  compile_groups types (s ∷ ss) = elim (compile_group types (split_and s)) [
    | none ↦ none
    | some group ↦ Option.map (λ rest. group ∷ rest) (compile_groups types ss)
  ]

  -- `compileCondition`; none where it rejects the expression
  unfoldable pub compile_condition : Text → List Column → Option (CompiledCondition F)
  unfolding compile_groups column_types
  compile_condition expression columns =
      if length (trim_space expression) == 0
      then some []
      else compile_groups (column_types columns []) (split_or expression)
