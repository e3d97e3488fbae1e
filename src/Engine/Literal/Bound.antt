-- ===== src/Engine/Literal/Bound.antt =====
-- A bound value is read back from the text that the binder wrote for it.
use super_db.Engine.Fold.{upper}
use super_db.Engine.Bind.{Param, literal, format_param, null, string, bool, int, bytes}
use super_db.Engine.Literal.{
  any_of, unquote_literal, parse_val, parse_typed, parse_bool, is_null, inner, ends_with, last_is,
  literal_value,
}
use super_db.Strings.{double_quotes, undouble-double, trim_space}
use super_db.Strings.Trim.{trim_space_between, trim_space-AllVisible, AllVisible}
use super_db.Prelude.{
  ℕ, Text, Bool, some, true, false, ◌∷◌, [], ◌++◌, ◌≡◌, refl, ap, arith, length, leb, text_eq, ◌+◌,
  codes, if◌then◌else◌,
}
use super_db.Prelude.Decimal.{
  IsInt64, parse_int-format_int, format_int, format_uint-IsDigits, format_uint, IsDigits, pos,
  negsuc, ℤ,
}
use super_db.Engine.Value.{Floats, Value, ColumnType, int_type, text_type, bool_type, bool_text}
use mathlib.Core.List.{reverse-append, reverse-reverse}

last_is_end : (d a : ℕ) (s : Text) → last_is d a (s ++ (d ∷ [])) ≡ true
unfolding last_is
last_is_end d a [] = ground arith
last_is_end d a (b ∷ s) = last_is_end d b s

pub ends_with_between : (c d : ℕ) (s : Text) → ends_with c d (c ∷ (s ++ (d ∷ []))) ≡ true
unfolding ends_with
ends_with_between c d s = ground (arith, last_is_end d c s)

pub inner_between : (c d : ℕ) (s : Text) → inner (c ∷ (s ++ (d ∷ []))) ≡ s
unfolding inner
inner_between c d s = rw (reverse-append s (d ∷ [])) (reverse-reverse s)

pub two_between : (c d : ℕ) (s : Text) → leb 2 (length (c ∷ (s ++ (d ∷ [])))) ≡ true
two_between c d [] = refl
two_between c d (b ∷ s) = ground arith

pub trim_space-literal : (s : Text) → trim_space (literal s) ≡ literal s
unfolding literal
trim_space-literal s =
    trim_space_between 39 39 (double_quotes s) (omega arith, omega arith) (omega arith, omega arith)

-- A quoted text is unquoted to the text that was quoted.
pub unquote_literal-literal : (s : Text) → unquote_literal (literal s) ≡ s
unfolding unquote_literal
unquote_literal-literal s = rw (trim_space-literal s) (
    unfold literal in
    rw
      (
        two_between 39 39 (double_quotes s),
        ends_with_between 39 39 (double_quotes s),
        inner_between 39 39 (double_quotes s),
      )
      (undouble-double s))

trimmed-unquote : (s : Text) → is_null (literal s) ≡ false
unfolding is_null literal upper text_eq
trimmed-unquote s = refl

pub digits-AllVisible : (s : Text) → IsDigits s → AllVisible s
digits-AllVisible [] h = tt
digits-AllVisible (c ∷ s) (a, b, h) = ((omega arith, omega arith), digits-AllVisible s h)

pub format_int-AllVisible : (z : ℤ) → AllVisible (format_int z)
unfolding format_int
format_int-AllVisible (pos n) = digits-AllVisible (format_uint n) (format_uint-IsDigits n)
format_int-AllVisible (negsuc n) = (
  (omega arith, omega arith),
  digits-AllVisible (format_uint (n + 1)) (format_uint-IsDigits (n + 1)),
)

digits-not_null : (s : Text) → IsDigits s → is_null s ≡ false
unfolding is_null upper text_eq
digits-not_null [] h = refl
digits-not_null (c ∷ s) (a, b, h) = ground arith

format_int-not_null : (z : ℤ) → is_null (format_int z) ≡ false
unfolding format_int
format_int-not_null (pos n) = digits-not_null (format_uint n) (format_uint-IsDigits n)
format_int-not_null (negsuc n) = unfold is_null upper text_eq in refl

-- The values that a column's literals read back: any text, an int64 and a Boolean in columns of their
-- type, and NULL in any column.
pub data Fits {F : Type 0} : Param F → ColumnType → Value F → Type 0 where
  null_fits : {typ : ColumnType} → Fits null typ Value.null
  string_fits : {s : Text} → Fits (string s) text_type (Value.text s)
  bytes_fits : {s : Text} → Fits (bytes s) text_type (Value.text s)
  int_fits : {z : ℤ} → IsInt64 z → Fits (int z) int_type (Value.int z)
  bool_fits : {b : Bool} → Fits (bool b) bool_type (Value.bool b)

module _ {F : Type 0} ⦃fl : Floats F⦄ where
  parse_val-literal : (s : Text) → parse_val {F = F} (literal s) text_type ≡ some (Value.text s)
  unfolding parse_val parse_typed
  parse_val-literal s =
      rw (trim_space-literal s, trimmed-unquote s)
        (ap (λ (t : Text). some (Value.text t)) (unquote_literal-literal s))

  parse_val-format_int :
      (z : ℤ) → IsInt64 z → parse_val {F = F} (format_int z) int_type ≡ some (Value.int z)
  unfolding parse_val parse_typed
  parse_val-format_int z small =
      rw
        (
          trim_space-AllVisible (format_int z) (format_int-AllVisible z),
          format_int-not_null z,
          parse_int-format_int z small,
        )
        refl

  parse_val-null : (typ : ColumnType) → parse_val {F = F} (codes "NULL") typ ≡ some Value.null
  unfolding parse_val is_null upper text_eq
  parse_val-null typ = rw (trim_space-AllVisible (codes "NULL") (ground arith)) refl

  parse_val-bool_text : (b : Bool) → parse_val {F = F} (bool_text b) bool_type ≡ some (Value.bool b)
  unfolding parse_val parse_typed is_null upper text_eq bool_text parse_bool any_of
  parse_val-bool_text true = rw (trim_space-AllVisible (codes "true") (ground arith)) refl
  parse_val-bool_text false = rw (trim_space-AllVisible (codes "false") (ground arith)) refl

  -- `parseVal` reads back what `formatParam` wrote.
  pub parse_val-format_param :
      (a : Param F) (typ : ColumnType) (v : Value F)
      → Fits a typ v
      → parse_val {F = F} (format_param a) typ ≡ some v
  parse_val-format_param a typ v null_fits = unfold format_param in parse_val-null typ
  parse_val-format_param a typ v (string_fits {s}) = unfold format_param in parse_val-literal s
  parse_val-format_param a typ v (bytes_fits {s}) = unfold format_param in parse_val-literal s
  parse_val-format_param a typ v (int_fits {z} small) =
      unfold format_param in parse_val-format_int z small
  parse_val-format_param a typ v (bool_fits {b}) = unfold format_param in parse_val-bool_text b

  -- A WHERE compares its column with what is inside a text's quotes, unquoted once more: NULL where that
  -- spells the keyword, else without spaces around it and without quotes that it holds itself.
  pub literal_value-literal :
      (s : Text)
      → literal_value {F = F} (literal s) text_type ≡ (
          if is_null (trim_space s)
          then Value.null
          else Value.text (unquote_literal (trim_space s)))
  unfolding literal_value parse_val parse_typed
  literal_value-literal s = rw (trim_space-literal s, unquote_literal-literal s) (ground arith)
