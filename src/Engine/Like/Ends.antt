-- ===== src/Engine/Like/Ends.antt =====
-- The loop of likeMatch ends: the fuel of `like_runes` is enough for every pattern and value.
use super_db.Strings.{runes}
use super_db.Prelude.{
  ℕ, none, some, [], ◌∷◌, zero, suc, List, Text, ◌<◌, Option, arith, length, ◌*◌, ◌≢◌, Bool, ◌+◌,
  ◌≤◌, Bool-cases, ◌≡◌, ◌==◌, ◌||◌, inl, inr,
}
use super_db.Engine.Like.{any_one, any_run, Star, retry, like_loop, like_runes, like_match}

-- What is saved at the last '%' holds the value that is left, and `k` bounds it.
abbrev Bounded : ℕ → ℕ → List ℕ → Star → Type 0
Bounded k m v none = Unit
Bounded k m v (some (sp, sv)) =
    (length v ≤ length sv) × (length sv ≤ m) × (length sp + length sv < k)

abbrev Round : Type 0
Round = List ℕ → List ℕ → Star → Option Bool

-- going back to the last run costs a whole `k`
fuel_left : (k m' new old f : ℕ) → new < k → suc m' * k + old < suc f → m' * k + new < f
fuel_left k m' new old f small fuel =
    let grown : suc m' * k ≡ m' * k + k = grind arith in omega arith

retry-ne-none :
    (k m old f c : ℕ) (v : List ℕ) (star : Star) (next : Round)
    → Bounded k m (c ∷ v) star
    → m * k + old < suc f
    → ((m' : ℕ) (sp sv : List ℕ)
        → length sv ≤ m'
        → length sp + length sv < k
        → m' * k + (length sp + length sv) < f
        → next sp sv (some (sp, sv)) ≢ none)
    → retry star next ≢ none
retry-ne-none k m old f c v none next b fuel ih h = cc
retry-ne-none k m old f c v (some (sp, [])) next (long, most, small) fuel ih h =
    absurd (omega arith)
retry-ne-none k zero old f c v (some (sp, s ∷ sv)) next (long, most, small) fuel ih h =
    absurd (omega arith)
retry-ne-none k (suc m) old f c v (some (sp, s ∷ sv)) next (long, most, small) fuel ih h =
    ih m sp sv (omega arith) (omega arith)
      (fuel_left k m (length sp + length sv) old f (omega arith) fuel) h

Bounded-tail :
    (k m c : ℕ) (v : List ℕ) (star : Star) → Bounded k m (c ∷ v) star → Bounded k m v star
Bounded-tail k m c v none b = tt
Bounded-tail k m c v (some (sp, sv)) (long, most, small) = (omega arith, most, small)

like_loop-ne-none :
    (f k m : ℕ) (p v : List ℕ) (star : Star)
    → length v ≤ m
    → length p + length v < k
    → m * k + (length p + length v) < f
    → Bounded k m v star
    → like_loop f p v star ≢ none
unfolding like_loop
like_loop-ne-none zero k m p v star long small fuel b h = absurd (omega arith)
like_loop-ne-none (suc f) k m p [] star long small fuel b h = cc
like_loop-ne-none (suc f) k m [] (c ∷ v) star long small fuel b h =
    retry-ne-none k m (length v + 1) f c v star (like_loop f) b (omega arith)
      (λ m' sp sv l s e. like_loop-ne-none f k m' sp sv (some (sp, sv)) l s e (omega arith, l, s)) h
like_loop-ne-none (suc f) k m (a ∷ p) (c ∷ v) star long small fuel b h =
    let onward =
      like_loop-ne-none f k m p v star (omega arith) (omega arith) (omega arith)
        (Bounded-tail k m c v star b) in
    let saved =
      like_loop-ne-none f k m p (c ∷ v) (some (p, c ∷ v)) long (omega arith) (omega arith)
        (omega arith, long, omega arith) in
    let again =
      retry-ne-none k m (length p + length v + 2) f c v star (like_loop f) b (omega arith)
        (λ m' sp sv l s e.
          like_loop-ne-none f k m' sp sv (some (sp, sv)) l s e (omega arith, l, s)) in
    elim (Bool-cases (a == any_one || a == c)) [
      | inl t ↦ onward (ground (arith, h, t))
      | inr t ↦ elim (Bool-cases (a == any_run)) [
        | inl r ↦ saved (ground (arith, h, t, r))
        | inr r ↦ again (ground (arith, h, t, r))
      ]
    ]

-- likeMatch answers, whatever the pattern and the value are.
pub like_match-ne-none : (pattern value : Text) → like_match pattern value ≢ none
unfolding like_match like_runes
like_match-ne-none pattern value =
    like_loop-ne-none _ (length (runes pattern) + length (runes value) + 1)
      (length (runes value) + 1) (runes pattern) (runes value) none (omega arith) (omega arith)
      (omega arith) tt
