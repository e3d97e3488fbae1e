-- ===== src/Engine/Literal.antt =====
-- internal/engine/parser.go: the literals of a statement, read into values.
pub mod Bound
pub mod Fields
use mathlib.Core.Option
use super_db.Strings.{trim_space, undouble_quotes}
use super_db.Prelude.{
  ℕ, Text, Bool, Option, List, none, some, true, false, ◌∷◌, [], ◌==◌, ◌&&◌, ◌||◌, not, reverse,
  map, codes, text_eq, if◌then◌else◌, leb, length, drop,
}
use super_db.Prelude.Decimal.{parse_int}
use super_db.Prelude.Map.{get_or}
use super_db.Engine.Fold.{quote_at, upper}
use super_db.Engine.Value.{
  Floats, Value, ColumnType, null, int, float, text, bool, int_type, float_type, text_type,
  bool_type,
}

last_is : ℕ → ℕ → Text → Bool
last_is d a [] = a == d
last_is d a (b ∷ s) = last_is d b s

-- s[0] == c && s[len(s)-1] == d
unfoldable pub ends_with : ℕ → ℕ → Text → Bool
unfolding last_is
ends_with c d [] = false
ends_with c d (a ∷ s) = a == c && last_is d a s

-- s[1 : len(s)-1]
unfoldable pub inner : Text → Text
inner [] = []
inner (a ∷ s) = reverse (drop 1 (reverse s))

unfoldable pub skip_quotes : Text → Text
skip_quotes [] = []
skip_quotes (c ∷ s) = if c == 39 then skip_quotes s else c ∷ s

-- `strings.Trim(s, "'")`
unfoldable pub trim_quotes : Text → Text
unfolding skip_quotes
trim_quotes s = reverse (skip_quotes (reverse (skip_quotes s)))

-- `unquoteLiteral`
unfoldable pub unquote_literal : Text → Text
unquote_literal raw =
    let s = trim_space raw in
    if leb 2 (length s) && ends_with 39 39 s then undouble_quotes (inner s) else trim_quotes s

-- the loop of `splitVals`: `field` is s[start:i] in reverse, and `skip` says that the byte is the second
-- of a doubled quote
unfoldable pub split_vals_from : Bool → Bool → Text → Text → List Text
unfolding quote_at
split_vals_from skip quote field [] = trim_space (reverse field) ∷ []
split_vals_from true quote field (c ∷ s) = split_vals_from false quote (c ∷ field) s
split_vals_from false quote field (c ∷ s) = elim (c == 39) [
  | true ↦
      if quote && quote_at s
      then split_vals_from true quote (c ∷ field) s
      else split_vals_from false (not quote) (c ∷ field) s
  | false ↦
      if c == 44 && not quote
      then trim_space (reverse field) ∷ split_vals_from false quote [] s
      else split_vals_from false quote (c ∷ field) s
]

-- `splitVals`
unfoldable pub split_vals : Text → List Text
split_vals s = split_vals_from false false [] s

-- `strings.EqualFold(s, "NULL")`: no other rune folds to one of these letters.
unfoldable pub is_null : Text → Bool
unfolding upper
is_null s = text_eq (map upper s) (codes "NULL")

any_of : List Text → Text → Bool
any_of [] s = false
any_of (t ∷ ts) s = text_eq s t || any_of ts s

-- `strconv.ParseBool`
unfoldable pub parse_bool : Text → Option Bool
unfolding any_of
parse_bool s =
    if any_of (codes "1" ∷ codes "t" ∷ codes "T" ∷ codes "true" ∷ codes "TRUE" ∷ codes "True" ∷ [])
      s
    then some true
    else if any_of
        (codes "0" ∷ codes "f" ∷ codes "F" ∷ codes "false" ∷ codes "FALSE" ∷ codes "False" ∷ []) s
    then some false
    else none

module _ {F : Type 0} ⦃fl : Floats F⦄ where
  -- the switch of `parseVal`; none for an error
  parse_typed : Text → ColumnType → Option (Value F)
  parse_typed s text_type = some (text (unquote_literal s))
  parse_typed s int_type = Option.map int (parse_int s)
  parse_typed s float_type = Option.map float (fl.parse s)
  parse_typed s bool_type = Option.map bool (parse_bool s)

  -- `parseVal`
  unfoldable pub parse_val : Text → ColumnType → Option (Value F)
  unfolding parse_typed
  parse_val raw typ = let s = trim_space raw in if is_null s then some null else parse_typed s typ

  -- `literalValue`
  unfoldable pub literal_value : Text → ColumnType → Value F
  literal_value raw typ =
      let unq = unquote_literal (trim_space raw) in get_or (parse_val unq typ) (text unq)

  -- the loop of `parseInList`; none where an element is empty
  unfoldable pub list_literals : List Text → ColumnType → Option (List (Value F))
  list_literals [] typ = some []
  list_literals (v ∷ vs) typ =
      if length (trim_space v) == 0
      then none
      else Option.map (λ rest. literal_value v typ ∷ rest) (list_literals vs typ)

  -- `parseInList`: splitVals never gives an empty list.
  unfoldable pub parse_in_list : Text → ColumnType → Option (List (Value F))
  parse_in_list raw typ =
      let s = trim_space raw in
      if leb 2 (length s) && ends_with 40 41 s
      then list_literals (split_vals (inner s)) typ
      else none

-- `inListValues`; an operand without its parentheses is the empty list
unfoldable pub in_list_values : Text → List Text
in_list_values raw =
    let s = trim_space raw in
    if leb 2 (length s) && ends_with 40 41 s then map unquote_literal (split_vals (inner s)) else []
