-- ===== src/Engine/Condition/Parse/Bare.antt =====
-- A WHERE that compares a text column with a bound text which is read back as it was.
use super_db.Strings.Trim.{BeginsVisible, trim_space_visible}
use mathlib.Core.List.{reverse-reverse}
use super_db.Engine.Bind.{literal}
use super_db.Engine.Condition.{op_eq, one}
use super_db.Engine.Condition.Parse.{compile_condition, column_types}
use super_db.Engine.Condition.Parse.Bound.{compile_condition-equation, equation}
use super_db.Engine.Condition.Parse.Whole.{IsName}
use super_db.Engine.Literal.{
  ends_with, is_null, literal_value, skip_quotes, trim_quotes, unquote_literal,
}
use super_db.Engine.Literal.Bound.{literal_value-literal}
use super_db.Engine.Value.{Column, Floats, Value, text, text_type}
use super_db.Prelude.Map.{get}
use super_db.Prelude.{
  ℕ, Text, List, Bool, some, true, false, ◌∷◌, [], ◌≡◌, ◌≢◌, refl, ap, ◌∙◌, arith, reverse, ◌&&◌,
  if◌then◌else◌, text_instance,
}

abbrev BeginsUnquoted : Text → Type 0
BeginsUnquoted [] = Unit
BeginsUnquoted (c ∷ s) = c ≢ 39

-- No blank and no quote stands at either end, no end is outside of ASCII, and it does not spell NULL.
pub record IsBare (s : Text) : Type 0 where
  pub visible : BeginsVisible s × BeginsVisible (reverse s)
  pub unquoted : BeginsUnquoted s × BeginsUnquoted (reverse s)
  pub not_null : is_null s ≡ false

skip_quotes-BeginsUnquoted : (s : Text) → BeginsUnquoted s → skip_quotes s ≡ s
unfolding skip_quotes
skip_quotes-BeginsUnquoted [] h = refl
skip_quotes-BeginsUnquoted (c ∷ s) h = ground (arith, h)

not_quoted : (s : Text) → BeginsUnquoted s → ends_with 39 39 s ≡ false
unfolding ends_with
not_quoted [] h = refl
not_quoted (c ∷ s) h = ground (arith, h)

pick_else : (a : Bool) (s t : Text) → (if a && false then s else t) ≡ t
pick_else true s t = refl
pick_else false s t = refl

trim_quotes-IsBare : (s : Text) → IsBare s → trim_quotes s ≡ s
unfolding trim_quotes
trim_quotes-IsBare s b =
    rw
      (
        skip_quotes-BeginsUnquoted s b.unquoted.0,
        skip_quotes-BeginsUnquoted (reverse s) b.unquoted.1,
      )
      (reverse-reverse s)

unquote_literal-IsBare : (s : Text) → IsBare s → unquote_literal s ≡ s
unfolding unquote_literal
unquote_literal-IsBare s b =
    rw (trim_space_visible s b.visible.0 b.visible.1, not_quoted s b.unquoted.0)
      (pick_else _ _ _ ∙ trim_quotes-IsBare s b)

module _ {F : Type 0} ⦃fl : Floats F⦄ where
  literal_value-IsBare :
      (s : Text) → IsBare s → literal_value {F = F} (literal s) text_type ≡ text s
  literal_value-IsBare s b =
      literal_value-literal s
      ∙ rw (trim_space_visible s b.visible.0 b.visible.1, b.not_null)
          (ap Value.text (unquote_literal-IsBare s b))

  -- In a table whose column `name` holds texts, where the name has identifier bytes of ASCII only and is in
  -- lower case, the WHERE `name='s'` without blanks compiles to the one comparison of that column with the
  -- text `s` itself, whatever keywords, operators and quotes `s` has inside, if no blank, no quote and no
  -- byte outside of ASCII stands at an end of `s` and it does not spell NULL.
  pub compile_condition-bare :
      (lower : Text → Text) (cols : List Column) (c : ℕ) (name s : Text)
      → IsName (c ∷ name)
      → lower (c ∷ name) ≡ c ∷ name
      → get (column_types cols []) (c ∷ name) ≡ some text_type
      → IsBare s
      → compile_condition {F = F} lower (equation (c ∷ name) s) cols
        ≡ some ((record { column = c ∷ name; expected = one (text s); op = op_eq } ∷ []) ∷ [])
  compile_condition-bare lower cols c name s is_name lowered typed b =
      compile_condition-equation lower cols c name s text_type is_name lowered typed
      ∙ ap
          (λ (v : Value F).
            some ((record { column = c ∷ name; expected = one v; op = op_eq } ∷ []) ∷ []))
          (literal_value-IsBare s b)
