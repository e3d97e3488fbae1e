-- ===== src/Engine/Select.antt =====
-- internal/engine/select.go: the rows of a result, their keys for DISTINCT, and the caps on their number.

pub mod Key
pub mod Term
pub mod Scan
pub mod Rows
pub mod Page
pub mod Found
pub mod Fast
pub mod Rebuilt
pub mod Ordered
pub mod Dedup
pub mod Plain
pub mod Statement
pub mod Single
pub mod Once
pub mod Zero
pub mod Twice
pub mod Distinct
use super_db.Prelude.{
  ℕ, Text, List, Bool, Option, none, some, true, false, ◌∷◌, [], ◌++◌, if◌then◌else◌, length, ltb,
  leb, drop, ◌+◌, ◌-◌, text_instance, get_elem?,
}
use super_db.Prelude.Map.{Map, get, get_or, has, put}
use super_db.Prelude.Decimal.{format_uint}
use super_db.Engine.Value.{Floats, Value, Row, cell, value_key, null, int, float, text, bool}

-- math.MaxInt, where an int has 64 bits
abbrev pub max_int : ℕ
max_int = 9223372036854775807

-- `satAdd`
unfoldable pub sat_add : ℕ → ℕ → ℕ
sat_add a b = if ltb (max_int - b) a then max_int else a + b

-- `rowCap`: none is -1, and a `max_rows` of 0 or less is 0.
unfoldable pub row_cap : Option ℕ → ℕ → ℕ → Option ℕ
unfolding sat_add
row_cap limit offset max_rows =
    let emit_cap = sat_add (sat_add max_rows offset) 1 in
    if ltb 0 max_rows
    then elim limit [
      | none ↦ some emit_cap
      | some n ↦ if ltb emit_cap (sat_add n offset) then some emit_cap else some (sat_add n offset)
    ]
    else elim limit [ none ↦ none | some n ↦ some (sat_add n offset) ]

-- `rowCap >= 0 && n >= rowCap`
unfoldable pub reached : Option ℕ → ℕ → Bool
reached none n = false
reached (some cap) n = leb cap n

-- `applyOffset`; an offset that passes the end leaves nothing
unfoldable pub apply_offset {ℓ} : {A : Type ℓ} → ℕ → List A → List A
apply_offset offset rows =
    if leb offset 0 then rows else if leb (length rows) offset then [] else drop offset rows

-- The keys of the rows that DISTINCT has seen
abbrev pub Seen : Type 0
Seen = Map Text (Unit {0})

module _ {F : Type 0} where
  unfoldable pub selected_values : Row F → List Text → List (Value F)
  selected_values row [] = []
  selected_values row (n ∷ names) = cell row n ∷ selected_values row names

  -- nil where the column or the value is missing
  fast_cell : List (Value F) → Option ℕ → Value F
  fast_cell values none = null
  fast_cell values (some i) = get_or (get_elem? values i) null

  unfoldable pub selected_fast_values : List (Value F) → List Text → Map Text ℕ → List (Value F)
  unfolding fast_cell
  selected_fast_values values [] columns = []
  selected_fast_values values (n ∷ names) columns =
      fast_cell values (get columns n) ∷ selected_fast_values values names columns

  -- the tag of `rowProjectionKey`
  unfoldable pub type_tag : Value F → ℕ
  type_tag (int n) = b'i'
  type_tag (float x) = b'f'
  type_tag (text s) = b's'
  type_tag (bool b) = b'b'
  type_tag _ = b'n'

module _ {F : Type 0} ⦃fl : Floats F⦄ where
  unfoldable pub row_projection_key : List (Value F) → Text
  unfolding type_tag
  row_projection_key [] = []
  row_projection_key (v ∷ row) =
      type_tag v
      ∷ (format_uint (length (value_key v)) ++ (b':' ∷ (value_key v ++ row_projection_key row)))

  -- `addLine`
  unfoldable pub add_line :
      Bool → Seen → List (List (Value F)) → List (Value F) → Seen × List (List (Value F))
  unfolding row_projection_key
  add_line false seen rows line = (seen, rows ++ (line ∷ []))
  add_line true seen rows line =
      if has seen (row_projection_key line)
      then (seen, rows)
      else (put seen (row_projection_key line) tt, rows ++ (line ∷ []))
