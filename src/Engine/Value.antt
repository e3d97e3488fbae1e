-- ===== src/Engine/Value.antt =====
-- internal/engine/types.go, schema.go and select.go: column types, stored values and their keys.
use super_db.Prelude.{
  Bool, true, false, not, ◌&&◌, List, [], ◌∷◌, Option, none, some, Text, codes, ltb, ◌==◌,
  if◌then◌else◌, text_eq, text_instance, ℕ,
}
use super_db.Prelude.Map.{Map, get, get_or}
use super_db.Prelude.Decimal.{ℤ, pos, negsuc, format_int, format_uint}

-- What the engine uses of float64, which antt does not have: `format` is strconv.FormatFloat with
-- 'g' and precision -1, `sprint` is fmt.Sprint, `less` is <, `of_int` is the conversion, `parse` is
-- strconv.ParseFloat with none for its errors, `same` is ==.
pub record Floats (F : Type 0) : Type 0 where
  pub format : F → Text
  pub sprint : F → Text
  pub less : F → F → Bool
  pub of_int : ℤ → F
  pub parse : Text → Option F
  pub same : F → F → Bool

-- `Type`
pub data ColumnType : Type 0 where
  int_type float_type text_type bool_type : ColumnType

pub record Column : Type 0 where
  pub name : Text
  pub type : ColumnType
  pub primary : Bool

-- The dynamic types that the `any` of a row or of a result has: nil, int64, float64, string, bool, and
-- the int that COUNT gives, which no row stores.
pub data Value (F : Type 0) : Type 0 where
  null : Value F
  int : ℤ → Value F
  counted : ℕ → Value F
  float : F → Value F
  text : Text → Value F
  bool : Bool → Value F

abbrev pub Row : Type 0 → Type 0
Row F = Map Text (Value F)

-- `row[column]`: a missing key reads as nil.
abbrev pub cell : {F : Type 0} → Row F → Text → Value F
cell r c = get_or (get r c) null

unfoldable pub bool_text : Bool → Text
bool_text true = codes "true"
bool_text false = codes "false"

-- `l < r` on int64
unfoldable pub int_less : ℤ → ℤ → Bool
int_less (pos a) (pos b) = ltb a b
int_less (pos a) (negsuc b) = false
int_less (negsuc a) (pos b) = true
int_less (negsuc a) (negsuc b) = ltb b a

-- `l < r` on strings: bytewise, a proper prefix first
unfoldable pub text_less : Text → Text → Bool
text_less [] [] = false
text_less [] (b ∷ t) = true
text_less (a ∷ s) [] = false
text_less (a ∷ s) (b ∷ t) = if a == b then text_less s t else ltb a b

unfoldable pub primary_column : List Column → Text
primary_column [] = []
primary_column (c ∷ cs) = if c.primary then c.name else primary_column cs

unfoldable pub has_primary_column : List Column → Bool
has_primary_column [] = false
has_primary_column (c ∷ cs) = if c.primary then true else has_primary_column cs

unfoldable pub has_column : List Column → Text → Bool
has_column [] name = false
has_column (c ∷ cs) name = if text_eq c.name name then true else has_column cs name

module _ {F : Type 0} ⦃fl : Floats F⦄ where
  unfoldable pub value_key : Value F → Text
  unfolding bool_text
  value_key (int n) = format_int n
  value_key (counted n) = format_uint n
  value_key (float x) = fl.format x
  value_key (text s) = s
  value_key (bool b) = bool_text b
  value_key null = codes "NULL"

  -- `fmt.Sprint` on a stored value
  unfoldable pub sprint : Value F → Text
  unfolding bool_text
  sprint (int n) = format_int n
  sprint (counted n) = format_uint n
  sprint (float x) = fl.sprint x
  sprint (text s) = s
  sprint (bool b) = bool_text b
  sprint null = codes "<nil>"

  unfoldable pub numeric : Value F → Option F
  numeric (int n) = some (fl.of_int n)
  numeric (float x) = some x
  numeric _ = none

  -- the tail of `valueLess`: numbers as floats, anything else as printed
  unfoldable pub mixed_less : Option F → Option F → Value F → Value F → Bool
  mixed_less (some l) (some r) _ _ = fl.less l r
  mixed_less _ _ left right = text_less (sprint left) (sprint right)

  unfoldable pub value_less : Value F → Value F → Bool
  unfolding mixed_less numeric sprint
  value_less (int l) (int r) = int_less l r
  value_less (text l) (text r) = text_less l r
  value_less (bool l) (bool r) = not l && r
  value_less (float l) (float r) = fl.less l r
  value_less left right = mixed_less (numeric left) (numeric right) left right
