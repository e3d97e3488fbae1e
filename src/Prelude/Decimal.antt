-- ===== src/Prelude/Decimal.antt =====
-- strconv.FormatUint and FormatInt at base 10.
use super_db.Prelude.{Option, some, ◌^◌, leb, none, refl, ◌&&◌}
use mathlib.Core.Logic.{inl, inr}
use super_db.Prelude.Tests.{Bool-cases, ◌==◌, if◌then◌else◌}
use super_db.Prelude.Eq.{Text}
use Prim.Native.Nat.{ℕ, zero, suc, ◌+◌, ◌-◌, ◌*◌, ◌/◌, ◌%◌, ◌≤◌}
use mathlib.Core.Path.{subst, ◌≡◌, sym, ap, ◌∙◌}
use mathlib.Core.List.{[], ◌∷◌}
use native.Mathlib.Omega.{arith}

-- Digits are written from the last one backwards, in front of `out`. A number has at most as many
-- digits as one more than its value, which is the fuel.
digits : ℕ → ℕ → Text → Text
digits zero n out = out
digits (suc f) n out =
    let out' = (48 + n % 10) ∷ out in
    let rest = digits f (n / 10) out' in if n / 10 == 0 then out' else rest

unfoldable pub format_uint : ℕ → Text
unfolding digits
format_uint n = digits (suc n) n []

-- An int64: `negsuc n` is -(n + 1).
pub data ℤ : Type 0 where
  pos : ℕ → ℤ
  negsuc : ℕ → ℤ

unfoldable pub format_int : ℤ → Text
unfolding format_uint
format_int (pos n) = format_uint n
format_int (negsuc n) = b'-' ∷ format_uint (n + 1)

-- The number that a text of digits stands for, after `acc`.
read_digits : ℕ → Text → ℕ
read_digits acc [] = acc
read_digits acc (c ∷ s) = read_digits (acc * 10 + (c - 48)) s

read_digits-digits :
    (f n : ℕ) (out : Text) → suc n ≤ f → read_digits 0 (digits f n out) ≡ read_digits n out
unfolding digits read_digits
read_digits-digits zero n out h = absurd (omega arith)
read_digits-digits (suc f) n out h = ground (
  arith,
  read_digits-digits f (n / 10) ((48 + n % 10) ∷ out),
  ap (λ (a : ℕ). read_digits a out) (step n),
  λ (z : n / 10 ≡ 0). ap (λ (a : ℕ). read_digits a out) (last n z),
)
  where
    step : (n : ℕ) → n / 10 * 10 + (48 + n % 10 - 48) ≡ n
    step n = omega arith

    last : (n : ℕ) → n / 10 ≡ 0 → 0 * 10 + (48 + n % 10 - 48) ≡ n
    last n z = omega arith

pub format_uint-injective : (m n : ℕ) → format_uint m ≡ format_uint n → m ≡ n
unfolding format_uint read_digits
format_uint-injective m n h =
    sym (read_digits-digits (suc m) m [] (omega arith))
    ∙ ap (read_digits 0) h
    ∙ read_digits-digits (suc n) n [] (omega arith)

-- Each byte is a digit.
abbrev pub IsDigits : Text → Type 0
IsDigits [] = Unit
IsDigits (c ∷ s) = (48 ≤ c) × (c ≤ 57) × IsDigits s

digits-IsDigits : (f n : ℕ) (out : Text) → IsDigits out → IsDigits (digits f n out)
unfolding digits
digits-IsDigits zero n out h = h
digits-IsDigits (suc f) n out h =
    let here : IsDigits ((48 + n % 10) ∷ out) = (omega arith, omega arith, h) in
    elim (Bool-cases (n / 10 == 0)) [
      | inl b ↦ rw b here
      | inr b ↦ rw b (digits-IsDigits f (n / 10) ((48 + n % 10) ∷ out) here)
    ]

pub format_uint-IsDigits : (n : ℕ) → IsDigits (format_uint n)
unfolding format_uint
format_uint-IsDigits n = digits-IsDigits (suc n) n [] tt

-- A text of digits, after `acc`; none where it has another byte.
unfoldable pub parse_digits : ℕ → Text → Option ℕ
parse_digits acc [] = some acc
parse_digits acc (c ∷ s) =
    if leb 48 c && leb c 57 then parse_digits (acc * 10 + (c - 48)) s else none

-- `cutoff` of an int64
abbrev pub max_int64 : ℕ
max_int64 = 2 ^ 63 - 1

abbrev up_to : ℕ → Option ℕ → Option ℕ
up_to max none = none
up_to max (some n) = if leb n max then some n else none

abbrev positive : Option ℕ → Option ℤ
positive none = none
positive (some n) = some (pos n)

abbrev negative : Option ℕ → Option ℤ
negative none = none
negative (some zero) = some (pos 0)
negative (some (suc n)) = some (negsuc n)

unsigned : Text → Option ℕ
unfolding parse_digits
unsigned [] = none
unsigned (c ∷ s) = parse_digits 0 (c ∷ s)

-- strconv.ParseInt(s, 10, 64); none for its errors
unfoldable pub parse_int : Text → Option ℤ
unfolding unsigned
parse_int [] = none
parse_int (c ∷ s) =
    if c == b'-'
    then negative (up_to (max_int64 + 1) (unsigned s))
    else positive (up_to max_int64 (unsigned (if c == b'+' then s else c ∷ s)))

-- an int64
abbrev pub IsInt64 : ℤ → Type 0
IsInt64 (pos n) = n ≤ max_int64
IsInt64 (negsuc n) = n ≤ max_int64

parse_digits-read :
    (acc : ℕ) (s : Text) → IsDigits s → parse_digits acc s ≡ some (read_digits acc s)
unfolding parse_digits read_digits
parse_digits-read acc [] h = refl
parse_digits-read acc (c ∷ s) (a, b, h) =
    ground (arith, parse_digits-read (acc * 10 + (c - 48)) s h)

read_digits-format_uint : (n : ℕ) → read_digits 0 (format_uint n) ≡ n
unfolding format_uint read_digits
read_digits-format_uint n = read_digits-digits (suc n) n [] (omega arith)

pub parse_digits-format_uint : (n : ℕ) → parse_digits 0 (format_uint n) ≡ some n
parse_digits-format_uint n =
    parse_digits-read 0 (format_uint n) (format_uint-IsDigits n)
    ∙ ap some (read_digits-format_uint n)

digits-cons : (f n c : ℕ) (out : Text) → (b : ℕ) × (s : Text) × (digits f n (c ∷ out) ≡ b ∷ s)
unfolding digits
digits-cons zero n c out = (c, out, refl)
digits-cons (suc f) n c out = elim (Bool-cases (n / 10 == 0)) [
  | inl b ↦ (48 + n % 10, c ∷ out, rw b refl)
  | inr b ↦ let (d, s, e) = digits-cons f (n / 10) (48 + n % 10) (c ∷ out) in (d, s, rw b e)
]

first_digit : (n : ℕ) → (c : ℕ) × (s : Text) × (format_uint n ≡ c ∷ s)
unfolding format_uint digits
first_digit n = elim (Bool-cases (n / 10 == 0)) [
  | inl b ↦ (48 + n % 10, [], rw b refl)
  | inr b ↦ let (d, s, e) = digits-cons n (n / 10) (48 + n % 10) [] in (d, s, rw b e)
]

-- A formatted number has a first digit.
pub format_uint-cons :
    (n : ℕ) → (c : ℕ) × (s : Text) × (format_uint n ≡ c ∷ s) × (48 ≤ c) × (c ≤ 57)
format_uint-cons n =
    let (c, s, e) = first_digit n in
    let d : IsDigits (c ∷ s) = subst IsDigits e (format_uint-IsDigits n) in (c, s, e, d.0, d.1)

parse_int-unsigned :
    (c n : ℕ) (s : Text)
    → 48 ≤ c
    → parse_digits 0 (c ∷ s) ≡ some n
    → n ≤ max_int64
    → parse_int (c ∷ s) ≡ some (pos n)
unfolding parse_int unsigned
parse_int-unsigned c n s digit read small = ground (arith, digit, read, small)

parse_int-negative :
    (c n : ℕ) (s : Text)
    → parse_digits 0 (c ∷ s) ≡ some (suc n)
    → n ≤ max_int64
    → parse_int (b'-' ∷ c ∷ s) ≡ some (negsuc n)
unfolding parse_int unsigned
parse_int-negative c n s read small = ground (arith, read, small)

-- An int64 is read back from its decimal text.
pub parse_int-format_int : (z : ℤ) → IsInt64 z → parse_int (format_int z) ≡ some z
unfolding format_int
parse_int-format_int (pos n) small =
    let (c, s, e, digit, top) = format_uint-cons n in
    rw e (
      parse_int-unsigned c n s digit (sym (ap (parse_digits 0) e) ∙ parse_digits-format_uint n)
        small)
parse_int-format_int (negsuc n) small =
    let (c, s, e, digit, top) = format_uint-cons (n + 1) in
    let read : parse_digits 0 (c ∷ s) ≡ some (suc n) =
      sym (ap (parse_digits 0) e) ∙ parse_digits-format_uint (n + 1) ∙ ap some (omega arith) in
    rw e (parse_int-negative c n s read small)
