-- ===== src/Engine/Bind.antt =====
-- internal/engine/bind.go: the values of a statement's placeholders, put into its text.
pub mod Plain
pub mod Exact
pub mod Safe
use super_db.Strings.{double_quotes}
use super_db.Prelude.Decimal.{ℤ, format_int, format_uint}
use super_db.Engine.Value.{Floats, bool_text}
use super_db.Prelude.{
  ℕ, Text, Bool, false, ◌∷◌, List, ◌==◌, [], codes, if◌then◌else◌, true, ◌++◌, ◌&&◌, not, ◌+◌,
}

-- What `formatParam` tells apart: the signed integer types, the unsigned ones, strings and byte slices,
-- and anything else by its fmt.Sprint.
pub data Param (F : Type 0) : Type 0 where
  null : Param F
  string : Text → Param F
  bool : Bool → Param F
  int : ℤ → Param F
  uint : ℕ → Param F
  float : F → Param F
  bytes : Text → Param F
  other : Text → Param F

pub data BindError : Type 0 where
  missing_params too_few_params too_many_params : BindError

pub data Result {ℓ} (A : Type ℓ) : Type ℓ where
  ok : A → Result A
  err : BindError → Result A

abbrev pub quote : ℕ
quote = 39

abbrev pub mark : ℕ
mark = 63

-- "'" + strings.ReplaceAll(s, "'", "''") + "'"
unfoldable pub literal : Text → Text
literal s = quote ∷ (double_quotes s ++ (quote ∷ []))

-- i+1 < len(sql) && sql[i+1] == '\''
unfoldable pub quote_next : Text → Bool
quote_next [] = false
quote_next (c ∷ s) = c == quote

-- `hasPlaceholder`, from a state of its loop: `skip` says that the byte is the second of a doubled quote
unfoldable pub has_placeholder_from : Bool → Bool → Text → Bool
unfolding quote_next
has_placeholder_from skip in_quote [] = false
has_placeholder_from true in_quote (c ∷ s) = has_placeholder_from false in_quote s
has_placeholder_from false in_quote (c ∷ s) = elim (c == quote) [
  | true ↦
      if in_quote && quote_next s
      then has_placeholder_from true in_quote s
      else has_placeholder_from false (not in_quote) s
  | false ↦ if c == mark && not in_quote then true else has_placeholder_from false in_quote s
]

unfoldable pub has_placeholder : Text → Bool
has_placeholder = has_placeholder_from false false

-- `PlaceholderCount`
unfoldable pub placeholder_count_from : Bool → Bool → Text → ℕ → ℕ
unfolding quote_next
placeholder_count_from skip in_quote [] n = n
placeholder_count_from true in_quote (c ∷ s) n = placeholder_count_from false in_quote s n
placeholder_count_from false in_quote (c ∷ s) n = elim (c == quote) [
  | true ↦
      if in_quote && quote_next s
      then placeholder_count_from true in_quote s n
      else placeholder_count_from false (not in_quote) s n
  | false ↦ placeholder_count_from false in_quote s (if c == mark && not in_quote then n + 1 else n)
]

unfoldable pub placeholder_count : Text → ℕ
placeholder_count sql = placeholder_count_from false false sql 0

module _ {F : Type 0} ⦃fl : Floats F⦄ where
  -- `formatParam`
  unfoldable pub format_param : Param F → Text
  unfolding literal bool_text
  format_param null = codes "NULL"
  format_param (string s) = literal s
  format_param (bool b) = bool_text b
  format_param (int n) = format_int n
  format_param (uint n) = format_uint n
  format_param (float x) = fl.format x
  format_param (bytes s) = literal s
  format_param (other s) = literal s

  -- the loop of `BindParams`: `args` are the values that are left, `out` is what has been written
  unfoldable pub bind_from : Bool → Bool → Text → List (Param F) → Text → Result Text
  unfolding quote_next
  bind_from skip in_quote [] [] out = ok out
  bind_from skip in_quote [] (_ ∷ _) out = err too_many_params
  bind_from true in_quote (c ∷ s) args out = bind_from false in_quote s args out
  bind_from false in_quote (c ∷ s) args out = elim (c == quote) [
    | true ↦ elim (in_quote && quote_next s) [
      | true ↦ bind_from true in_quote s args (out ++ (quote ∷ quote ∷ []))
      | false ↦ bind_from false (not in_quote) s args (out ++ (c ∷ []))
    ]
    | false ↦ elim (c == mark && not in_quote) [
      | true ↦ elim args [
        | [] ↦ err too_few_params
        | a ∷ rest ↦ bind_from false in_quote s rest (out ++ format_param a)
      ]
      | false ↦ bind_from false in_quote s args (out ++ (c ∷ []))
    ]
  ]

  -- `BindParams`
  unfoldable pub bind_params : Text → List (Param F) → Result Text
  unfolding has_placeholder bind_from
  bind_params sql [] = if has_placeholder sql then err missing_params else ok sql
  bind_params sql (a ∷ rest) = bind_from false false sql (a ∷ rest) []
