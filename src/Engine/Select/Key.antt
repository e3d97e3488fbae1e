-- ===== src/Engine/Select/Key.antt =====
-- The key that DISTINCT and GROUP BY give a row of values.
use super_db.Engine.Select.{row_projection_key, type_tag}
use super_db.Engine.Value.{
  Floats, Value, value_key, bool_text, null, int, counted, float, text, bool,
}
use super_db.Prelude.Decimal.{
  ℤ, pos, negsuc, format_uint, format_uint-injective, format_uint-cons, format_uint-IsDigits,
  format_int, IsDigits,
}
use super_db.Prelude.{
  ℕ, Text, List, true, false, ◌∷◌, [], ◌++◌, ◌≡◌, ◌+◌, refl, ap, ◌∙◌, sym, arith, length, codes,
  ◌≢◌,
}

first_byte : (a b : ℕ) (s t : Text) → ◌≡◌ {A = Text} (a ∷ s) (b ∷ t) → a ≡ b
first_byte a b s t h = ground (arith, h)

other_bytes : (a b : ℕ) (s t : Text) → ◌≡◌ {A = Text} (a ∷ s) (b ∷ t) → s ≡ t
other_bytes a b s t h = ground (arith, h)

-- Digits end at the colon behind them.
digits-colon :
    (s t u v : Text) → IsDigits s → IsDigits t → s ++ (58 ∷ u) ≡ t ++ (58 ∷ v) → (s ≡ t) × (u ≡ v)
digits-colon [] [] u v ds dt h = (refl, other_bytes 58 58 u v h)
digits-colon [] (c ∷ t) u v ds (a, b, dt) h =
    absurd (omega (arith, first_byte 58 c u (t ++ (58 ∷ v)) h))
digits-colon (c ∷ s) [] u v (a, b, ds) dt h =
    absurd (omega (arith, first_byte c 58 (s ++ (58 ∷ u)) v h))
digits-colon (c ∷ s) (d ∷ t) u v (a, b, ds) (a', b', dt) h =
    let (e, f) = digits-colon s t u v ds dt (other_bytes c d (s ++ (58 ∷ u)) (t ++ (58 ∷ v)) h) in
    (ground (arith, e, first_byte c d (s ++ (58 ∷ u)) (t ++ (58 ∷ v)) h), f)

append_same_length : (s t u v : Text) → length s ≡ length t → s ++ u ≡ t ++ v → (s ≡ t) × (u ≡ v)
append_same_length [] [] u v e h = (refl, h)
append_same_length [] (d ∷ t) u v e h = absurd (omega (arith, e))
append_same_length (c ∷ s) [] u v e h = absurd (omega (arith, e))
append_same_length (c ∷ s) (d ∷ t) u v e h =
    let (p, q) =
      append_same_length s t u v (omega (arith, e)) (other_bytes c d (s ++ u) (t ++ v) h) in
    (ground (arith, p, first_byte c d (s ++ u) (t ++ v) h), q)

format_int-injective : (y z : ℤ) → format_int y ≡ format_int z → y ≡ z
unfolding format_int
format_int-injective (pos m) (pos n) h = ap pos (format_uint-injective m n h)
format_int-injective (pos m) (negsuc n) h =
    let (c, s, e, low, high) = format_uint-cons m in
    absurd (omega (arith, low, first_byte c 45 s (format_uint (n + 1)) (sym e ∙ h)))
format_int-injective (negsuc m) (pos n) h =
    let (c, s, e, low, high) = format_uint-cons n in
    absurd (omega (arith, low, first_byte 45 c (format_uint (m + 1)) s (h ∙ e)))
format_int-injective (negsuc m) (negsuc n) h = ap negsuc (
    omega (
      arith,
      format_uint-injective (m + 1) (n + 1)
          (other_bytes 45 45 (format_uint (m + 1)) (format_uint (n + 1)) h),
    ))

null-counted : (n : ℕ) → codes "NULL" ≢ format_uint n
null-counted n h =
    let (c, s, e, low, high) = format_uint-cons n in
    omega (arith, high, first_byte 78 c (codes "ULL") s (h ∙ e))

module _ {F : Type 0} ⦃fl : Floats F⦄ (exact : (x y : F) → fl.format x ≡ fl.format y → x ≡ y) where
  value_key-injective :
      (v w : Value F) → type_tag v ≡ type_tag w → value_key v ≡ value_key w → v ≡ w
  unfolding value_key type_tag bool_text
  value_key-injective (int y) (int z) g h = ap int (format_int-injective y z h)
  value_key-injective (float x) (float y) g h = ap float (exact x y h)
  value_key-injective (text s) (text t) g h = ap text h
  value_key-injective (bool true) (bool true) g h = refl
  value_key-injective (bool false) (bool false) g h = refl
  value_key-injective (bool true) (bool false) g h =
      absurd (omega (arith, first_byte 116 102 (codes "rue") (codes "alse") h))
  value_key-injective (bool false) (bool true) g h =
      absurd (omega (arith, first_byte 102 116 (codes "alse") (codes "rue") h))
  value_key-injective null null g h = refl
  value_key-injective null (counted n) g h = absurd (null-counted n h)
  value_key-injective (counted n) null g h = absurd (null-counted n (sym h))
  value_key-injective (counted m) (counted n) g h = ap counted (format_uint-injective m n h)
  value_key-injective v w g h = absurd (ground (arith, g))

  -- Two rows have the same key only if they hold the same values, if two floats that are formatted alike
  -- are the same.
  pub row_projection_key-injective :
      (xs ys : List (Value F)) → row_projection_key xs ≡ row_projection_key ys → xs ≡ ys
  unfolding row_projection_key
  row_projection_key-injective [] [] h = refl
  row_projection_key-injective [] (v ∷ ys) h = cc
  row_projection_key-injective (v ∷ xs) [] h = cc
  row_projection_key-injective (v ∷ xs) (w ∷ ys) h =
      let k = value_key v in
      let l = value_key w in
      let body = other_bytes (type_tag v) (type_tag w) _ _ h in
      let (sizes, rest) =
        digits-colon (format_uint (length k)) (format_uint (length l)) (k ++ row_projection_key xs)
          (l ++ row_projection_key ys) (format_uint-IsDigits (length k))
          (format_uint-IsDigits (length l)) body in
      let (same, more) =
        append_same_length k l (row_projection_key xs) (row_projection_key ys)
          (format_uint-injective (length k) (length l) sizes) rest in
      let at_head = value_key-injective v w (first_byte (type_tag v) (type_tag w) _ _ h) same in
      let behind = row_projection_key-injective xs ys more in cc
