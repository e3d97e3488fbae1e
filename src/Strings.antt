-- ===== src/Strings.antt =====
-- What the program uses of Go's packages strings and unicode, on the bytes of a text.
pub mod Trim
pub mod Depth
use super_db.Prelude.{
  Text, List, length, reverse, ℕ, ◌∷◌, ◌≡◌, [], if◌then◌else◌, suc, drop, leb, ltb, refl, ◌==◌,
  zero, ◌&&◌, ◌||◌, Bool-cases, false, arith, inl, inr, Bool, ◌%◌, ◌*◌, ◌+◌,
}

-- How many bytes at the front are one space of `unicode.IsSpace` in UTF-8; 0 where none is.
unfoldable pub space_width : Text → ℕ
space_width [] = 0
space_width (a ∷ []) = if (leb 9 a && leb a 13) || a == 32 then 1 else 0
space_width (a ∷ b ∷ []) =
    if (leb 9 a && leb a 13) || a == 32
    then 1
    else if a == 0xc2 && (b == 0x85 || b == 0xa0)
    then 2
    else 0
space_width (a ∷ b ∷ c ∷ s) =
    if (leb 9 a && leb a 13) || a == 32
    then 1
    else if a == 0xc2 && (b == 0x85 || b == 0xa0)
    then 2
    else if a == 0xe1 && b == 0x9a && c == 0x80
    then 3
    else if a == 0xe2
        && b == 0x80
        && ((leb 0x80 c && leb c 0x8a) || c == 0xa8 || c == 0xa9 || c == 0xaf)
    then 3
    else if a == 0xe2 && b == 0x81 && c == 0x9f
    then 3
    else if a == 0xe3 && b == 0x80 && c == 0x80
    then 3
    else 0

-- The same for a space at the end, whose bytes are met in reverse.
unfoldable pub space_width_back : Text → ℕ
unfolding space_width
space_width_back [] = 0
space_width_back (a ∷ []) = space_width (a ∷ [])
space_width_back (b ∷ a ∷ []) =
    if ltb 0 (space_width (b ∷ [])) then 1 else if space_width (a ∷ b ∷ []) == 2 then 2 else 0
space_width_back (c ∷ b ∷ a ∷ s) =
    if ltb 0 (space_width (c ∷ []))
    then 1
    else if space_width (b ∷ c ∷ []) == 2
    then 2
    else if space_width (a ∷ b ∷ c ∷ []) == 3
    then 3
    else 0

-- Drops spaces at the front, as `width` measures them, on fuel: each round drops a byte at least.
drop_spaces : (Text → ℕ) → ℕ → Text → Text
drop_spaces width zero s = s
drop_spaces width (suc f) s =
    let rest = drop_spaces width f (drop (width s) s) in if width s == 0 then s else rest

unfoldable pub trim_left : Text → Text
unfolding drop_spaces space_width
trim_left s = drop_spaces space_width (length s) s

-- `strings.TrimSpace`
unfoldable pub trim_space : Text → Text
unfolding trim_left space_width_back
trim_space s =
    let front = trim_left s in reverse (drop_spaces space_width_back (length front) (reverse front))

-- `strings.Split(s, "\n")`: the pieces between newlines; `cur` is the piece so far, in reverse.
split_lines_from : Text → Text → List Text
split_lines_from cur [] = reverse cur ∷ []
split_lines_from cur (c ∷ s) =
    let cut = reverse cur ∷ split_lines_from [] s in
    let more = split_lines_from (c ∷ cur) s in if c == 10 then cut else more

unfoldable pub split_lines : Text → List Text
unfolding split_lines_from
split_lines s = split_lines_from [] s

-- `strings.ReplaceAll(s, "'", "''")` and back
unfoldable pub double_quotes : Text → Text
double_quotes [] = []
double_quotes (c ∷ s) = if c == 39 then 39 ∷ 39 ∷ double_quotes s else c ∷ double_quotes s

unfoldable pub undouble_quotes : Text → Text
undouble_quotes [] = []
undouble_quotes (a ∷ []) = a ∷ []
undouble_quotes (a ∷ b ∷ s) =
    let skip = 39 ∷ undouble_quotes s in
    let step = a ∷ undouble_quotes (b ∷ s) in if a == 39 && b == 39 then skip else step

undouble_quotes_other :
    (c : ℕ) (s : Text) → (c == 39) ≡ false → undouble_quotes (c ∷ s) ≡ c ∷ undouble_quotes s
unfolding undouble_quotes
undouble_quotes_other c [] h = refl
undouble_quotes_other c (b ∷ s) h = ground arith

-- Doubling the quotes of a text loses nothing.
pub undouble-double : (s : Text) → undouble_quotes (double_quotes s) ≡ s
unfolding double_quotes undouble_quotes
undouble-double [] = refl
undouble-double (c ∷ s) = elim (Bool-cases (c == 39)) [
  | inl b ↦ let e : c ≡ 39 = ground arith in rw b (rw (undouble-double s, e))
  | inr b ↦ rw b (rw (undouble_quotes_other c (double_quotes s) b, undouble-double s))
]

abbrev is_tail : ℕ → Bool
is_tail b = leb 0x80 b && leb b 0xbf

-- the ranges of a second byte, by the first one
abbrev is_second : ℕ → ℕ → Bool
is_second a b =
    if a == 0xe0
    then leb 0xa0 b && leb b 0xbf
    else if a == 0xed
    then leb 0x80 b && leb b 0x9f
    else if a == 0xf0
    then leb 0x90 b && leb b 0xbf
    else if a == 0xf4
    then leb 0x80 b && leb b 0x8f
    else is_tail b

-- The first rune of a text and how many bytes of it follow the first, where those next three (0 behind
-- the end) are `b`, `c` and `d`. An invalid byte is U+FFFD on its own, as in a conversion to []rune.
first_rune : ℕ → ℕ → ℕ → ℕ → ℕ × ℕ
first_rune a b c d =
    if ltb a 0x80
    then (a, 0)
    else if leb 0xc2 a && (leb a 0xdf && is_tail b)
    then (a % 32 * 64 + b % 64, 1)
    else if leb 0xe0 a && (leb a 0xef && (is_second a b && is_tail c))
    then (a % 16 * 4096 + b % 64 * 64 + c % 64, 2)
    else if leb 0xf0 a && (leb a 0xf4 && (is_second a b && (is_tail c && is_tail d)))
    then (a % 8 * 262144 + b % 64 * 4096 + c % 64 * 64 + d % 64, 3)
    else (0xfffd, 0)

byte_or_zero : ℕ → Text → ℕ
byte_or_zero i [] = 0
byte_or_zero zero (c ∷ s) = c
byte_or_zero (suc i) (c ∷ s) = byte_or_zero i s

-- `skip` bytes still belong to the rune before
runes_from : ℕ → Text → List ℕ
runes_from skip [] = []
runes_from (suc skip) (c ∷ s) = runes_from skip s
runes_from zero (c ∷ s) =
    let (r, more) = first_rune c (byte_or_zero 0 s) (byte_or_zero 1 s) (byte_or_zero 2 s) in
    r ∷ runes_from more s

-- []rune(s)
unfoldable pub runes : Text → List ℕ
unfolding first_rune byte_or_zero runes_from
runes s = runes_from 0 s
