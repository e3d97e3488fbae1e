-- ===== src/Strings/Trim.antt =====
-- strings.TrimSpace on texts that have no space at their ends.
use super_db.Strings.{trim_space, trim_left, drop_spaces, space_width, space_width_back}
use super_db.Prelude.{
  ℕ, Text, ◌∷◌, [], ◌++◌, ◌≡◌, ◌<◌, reverse, refl, arith, ◌==◌, false, zero, suc, length,
}
use mathlib.Core.List.{reverse-reverse, reverse-cons, reverse-append}

-- a printable ASCII byte that is not the space
abbrev pub IsVisible : ℕ → Type 0
IsVisible c = (32 < c) × (c < 128)

-- a text that is empty or begins with such a byte
abbrev pub BeginsVisible : Text → Type 0
BeginsVisible [] = Unit
BeginsVisible (c ∷ s) = IsVisible c

space_width_visible : (c : ℕ) (s : Text) → IsVisible c → space_width (c ∷ s) ≡ 0
unfolding space_width
space_width_visible c [] (a, b) = ground (arith, a, b)
space_width_visible c (d ∷ []) (a, b) = ground (arith, a, b)
space_width_visible c (d ∷ e ∷ s) (a, b) = ground (arith, a, b)

no_pair : (b c : ℕ) → IsVisible c → (space_width (b ∷ c ∷ []) == 2) ≡ false
unfolding space_width
no_pair b c (l, h) = ground (arith, l, h)

no_triple : (a b c : ℕ) → IsVisible c → (space_width (a ∷ b ∷ c ∷ []) == 3) ≡ false
unfolding space_width
no_triple a b c (l, h) = ground (arith, l, h)

space_width_back_visible : (c : ℕ) (s : Text) → IsVisible c → space_width_back (c ∷ s) ≡ 0
unfolding space_width_back
space_width_back_visible c [] v = space_width_visible c [] v
space_width_back_visible c (b ∷ []) v = rw (space_width_visible c [] v, no_pair b c v) refl
space_width_back_visible c (b ∷ a ∷ s) v =
    rw (space_width_visible c [] v, no_pair b c v, no_triple a b c v) refl

drop_spaces_none : (width : Text → ℕ) (f : ℕ) (s : Text) → width s ≡ 0 → drop_spaces width f s ≡ s
unfolding drop_spaces
drop_spaces_none width zero s h = refl
drop_spaces_none width (suc f) s h = ground (arith, h)

front_width : (s : Text) → BeginsVisible s → space_width s ≡ 0
unfolding space_width
front_width [] h = refl
front_width (c ∷ s) h = space_width_visible c s h

back_width : (s : Text) → BeginsVisible s → space_width_back s ≡ 0
unfolding space_width_back
back_width [] h = refl
back_width (c ∷ s) h = space_width_back_visible c s h

-- A text whose first and last bytes are visible has nothing to trim.
pub trim_space_visible : (s : Text) → BeginsVisible s → BeginsVisible (reverse s) → trim_space s ≡ s
trim_space_visible s front back =
    let left : trim_left s ≡ s =
      unfold trim_left in drop_spaces_none space_width (length s) s (front_width s front) in
    unfold trim_space in
    rw
      (left, drop_spaces_none space_width_back (length s) (reverse s) (back_width (reverse s) back))
      (reverse-reverse s)

-- the same of bytes between two visible ones
pub trim_space_between :
    (c d : ℕ) (s : Text)
    → IsVisible c
    → IsVisible d
    → trim_space (c ∷ (s ++ (d ∷ []))) ≡ c ∷ (s ++ (d ∷ []))
trim_space_between c d s first last =
    trim_space_visible (c ∷ (s ++ (d ∷ []))) first (rw (reverse-append (c ∷ s) (d ∷ [])) last)

-- Each byte is visible.
abbrev pub AllVisible : Text → Type 0
AllVisible [] = Unit
AllVisible (c ∷ s) = IsVisible c × AllVisible s

AllVisible-append : (s t : Text) → AllVisible s → AllVisible t → AllVisible (s ++ t)
AllVisible-append [] t a b = b
AllVisible-append (c ∷ s) t (v, a) b = (v, AllVisible-append s t a b)

AllVisible-reverse : (s : Text) → AllVisible s → AllVisible (reverse s)
AllVisible-reverse [] a = tt
AllVisible-reverse (c ∷ s) (v, a) =
    rw (reverse-cons c s) (AllVisible-append (reverse s) (c ∷ []) (AllVisible-reverse s a) (v, tt))

begins : (s : Text) → AllVisible s → BeginsVisible s
begins [] a = tt
begins (c ∷ s) (v, a) = v

pub trim_space-AllVisible : (s : Text) → AllVisible s → trim_space s ≡ s
trim_space-AllVisible s a =
    trim_space_visible s (begins s a) (begins (reverse s) (AllVisible-reverse s a))
