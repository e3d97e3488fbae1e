-- ===== src/Engine/Like/Decides.antt =====
-- The loop decides what LIKE means, where the value has no percent sign; where it has one, it can fail.
use mathlib.Core.Path.{subst}
use super_db.Prelude.{
  none, some, ℕ, Bool, List, [], false, length, some, ◌∷◌, ◌≢◌, true, ◌≡◌, ◌≤◌, arith,
  if◌then◌else◌, ◌+◌, ◌||◌, refl, ◌<◌, ◌==◌, ◌&&◌, ◌*◌, suc, zero, Option, ◌∙◌, ap, sym, ==_iff,
  Bool-cases, inl, inr,
}
use super_db.Engine.Like.{any_one, any_run, only_runs, Star, retry, like_loop, like_runes}

-- What LIKE means: '%' stands for any run of runes and '_' for any one.
unfoldable pub matches : List ℕ → List ℕ → Bool
matches [] [] = true
matches [] (c ∷ v) = false
matches (a ∷ p) [] = if a == any_run then matches p [] else false
matches (a ∷ p) (c ∷ v) =
    if a == any_run
    then matches p (c ∷ v) || matches (a ∷ p) v
    else (a == any_one || a == c) && matches p v

-- No rune of the value is a percent sign.
abbrev pub HasNoRun : List ℕ → Type 0
HasNoRun [] = Unit
HasNoRun (c ∷ v) = (c ≢ any_run) × HasNoRun v

-- A match of `p` at a later place
abbrev later : List ℕ → List ℕ → Bool
later p [] = false
later p (c ∷ v) = matches (any_run ∷ p) v

matches-only_runs : (p : List ℕ) → matches p [] ≡ only_runs p
unfolding matches only_runs
matches-only_runs [] = refl
matches-only_runs (a ∷ p) = ground (arith, matches-only_runs p)

matches-later : (p v : List ℕ) → matches (any_run ∷ p) v ≡ matches p v || later p v
unfolding matches
matches-later p [] = ground arith
matches-later p (c ∷ v) = ground arith

-- A pattern that begins with no run is matched later only if what is behind its first rune is.
must_take :
    (a : ℕ) (p v : List ℕ) → a ≢ any_run → matches (any_run ∷ a ∷ p) v ≡ true → later p v ≡ true
unfolding matches
must_take a p [] n h = ground arith
must_take a p (c ∷ v) n h = ground (arith, n, h, must_take a p v n, matches-later p v)

-- two runs in a row are one
run_run : (p v : List ℕ) → matches (any_run ∷ any_run ∷ p) v ≡ true → matches (any_run ∷ p) v ≡ true
unfolding matches
run_run p [] h = ground arith
run_run p (c ∷ v) h = ground (arith, h, run_run p v)

abbrev back : Star → Bool
back none = false
back (some (sp, sv)) = later sp sv

-- What is saved at the last '%': the value there holds the value that is left, a match behind it
-- gives a later match of what is left of the pattern, and K bounds both.
abbrev Saved : ℕ → ℕ → List ℕ → List ℕ → Star → Type 0
Saved k m p v none = Unit
Saved k m p v (some (sp, sv)) =
    (length v ≤ length sv)
    × (length sv ≤ m)
    × (length sp + length sv < k)
    × HasNoRun sv
    × (later sp sv ≡ true → later p v ≡ true)

abbrev Round : Type 0
Round = List ℕ → List ℕ → Star → Option Bool

retry-matches :
    (k m : ℕ) (p v : List ℕ) (c : ℕ) (star : Star) (next : Round)
    → Saved k m p (c ∷ v) star
    → ((m' : ℕ) (sp sv : List ℕ)
        → m ≡ suc m'
        → HasNoRun sv
        → length sv ≤ m'
        → length sp + length sv < k
        → next sp sv (some (sp, sv)) ≡ some (matches sp sv || later sp sv))
    → retry star next ≡ some (back star)
retry-matches k m p v c none next saved ih = refl
retry-matches k m p v c (some (sp, [])) next (long, most, small, clean, same) ih =
    absurd (omega arith)
retry-matches k zero p v c (some (sp, s ∷ sv)) next (long, most, small, clean, same) ih =
    absurd (omega arith)
retry-matches k (suc m) p v c (some (sp, s ∷ sv)) next (long, most, small, clean, same) ih =
    ih m sp sv refl clean.1 (omega arith) (omega arith) ∙ ap some (sym (matches-later sp sv))

-- going back to the last run costs a whole `k`
fuel_left : (k m m' new old f : ℕ) → m ≡ suc m' → new < k → m * k + old < suc f → m' * k + new < f
fuel_left k m m' new old f e small fuel =
    let grown : suc m' * k ≡ m' * k + k = grind arith in
    let spent : suc m' * k + old < suc f = rw (← e) fuel in omega arith

loop-end : (f : ℕ) (p : List ℕ) (star : Star) → like_loop (suc f) p [] star ≡ some (matches p [])
unfolding like_loop
loop-end f p star = ap some (sym (matches-only_runs p))

matches-drained : (c : ℕ) (v : List ℕ) → matches [] (c ∷ v) ≡ false
unfolding matches
matches-drained c v = refl

loop-drained :
    (f c : ℕ) (v : List ℕ) (star : Star)
    → like_loop (suc f) [] (c ∷ v) star ≡ retry star (like_loop f)
unfolding like_loop
loop-drained f c v star = refl

module _ (f a : ℕ) (p : List ℕ) (c : ℕ) (v : List ℕ) (star : Star) where
  loop-byte :
      (a == any_one || a == c) ≡ true
      → like_loop (suc f) (a ∷ p) (c ∷ v) star ≡ like_loop f p v star
  unfolding like_loop
  loop-byte h = ground arith

  loop-run :
      (a == any_one || a == c) ≡ false
      → (a == any_run) ≡ true
      → like_loop (suc f) (a ∷ p) (c ∷ v) star ≡ like_loop f p (c ∷ v) (some (p, c ∷ v))
  unfolding like_loop
  loop-run h r = ground arith

  loop-stuck :
      (a == any_one || a == c) ≡ false
      → (a == any_run) ≡ false
      → like_loop (suc f) (a ∷ p) (c ∷ v) star ≡ retry star (like_loop f)
  unfolding like_loop
  loop-stuck h r = ground arith

-- What a rune of the pattern asks of the value, by the branch that the loop takes
module _ (a : ℕ) (p : List ℕ) (c : ℕ) (v : List ℕ) where
  matches-byte :
      (a == any_one || a == c) ≡ true → c ≢ any_run → matches (a ∷ p) (c ∷ v) ≡ matches p v
  unfolding matches
  matches-byte h n = ground arith

  matches-run :
      (a == any_run) ≡ true → matches (a ∷ p) (c ∷ v) ≡ matches p (c ∷ v) || later p (c ∷ v)
  unfolding matches
  matches-run r = ground arith

  matches-stuck :
      (a == any_one || a == c) ≡ false → (a == any_run) ≡ false → matches (a ∷ p) (c ∷ v) ≡ false
  unfolding matches
  matches-stuck h r = ground arith

Saved-byte :
    (k m a : ℕ) (p : List ℕ) (c : ℕ) (v : List ℕ) (star : Star)
    → a ≢ any_run
    → Saved k m (a ∷ p) (c ∷ v) star
    → Saved k m p v star
Saved-byte k m a p c v none n saved = tt
Saved-byte k m a p c v (some (sp, sv)) n (long, most, small, clean, same) =
    (omega arith, most, small, clean, λ h. must_take a p v n (same h))

back-run :
    (k m a : ℕ) (p : List ℕ) (c : ℕ) (v : List ℕ) (star : Star)
    → (a == any_run) ≡ true
    → Saved k m (a ∷ p) (c ∷ v) star
    → back star ≡ true
    → later p (c ∷ v) ≡ true
back-run k m a p c v none r saved h = ground arith
back-run k m a p c v (some (sp, sv)) r (long, most, small, clean, same) h =
    let e : a ≡ any_run = (==_iff a any_run).0 r in
    run_run p v (subst (λ (b : ℕ). matches (any_run ∷ b ∷ p) v ≡ true) e (same h))

back-end : (k m : ℕ) (p : List ℕ) (star : Star) → Saved k m p [] star → back star ≡ false
back-end k m p none saved = refl
back-end k m p (some (sp, sv)) saved = ground (arith, saved.4)

-- With enough fuel the loop answers what is asked of what is left, or of a later place for the last run.
like_loop-matches :
    (f k m : ℕ) (p v : List ℕ) (star : Star)
    → HasNoRun v
    → length v ≤ m
    → length p + length v < k
    → m * k + (length p + length v) < f
    → Saved k m p v star
    → like_loop f p v star ≡ some (matches p v || back star)
like_loop-matches zero k m p v star clean long small fuel saved = absurd (omega arith)
like_loop-matches (suc f) k m p [] star clean long small fuel saved =
    ground (arith, loop-end f p star, back-end k m p star saved)
like_loop-matches (suc f) k m [] (c ∷ v) star clean long small fuel saved =
    let again = retry-matches k m [] v c star (like_loop f) saved (λ m' sp sv e clean' long' small'.
      like_loop-matches f k m' sp sv (some (sp, sv)) clean' long' small'
        (fuel_left k m m' (length sp + length sv) (length v + 1) f e small' (omega arith))
        (omega arith, long', small', clean', λ h. h)) in
    loop-drained f c v star
    ∙ again
    ∙ ap (λ (b : Bool). some (b || back star)) (sym (matches-drained c v))
like_loop-matches (suc f) k m (a ∷ p) (c ∷ v) star clean long small fuel saved =
    elim (Bool-cases (a == any_one || a == c)) [
      | inl h ↦
          let n : a ≢ any_run = ground (arith, clean.0) in
          let onward =
            like_loop-matches f k m p v star clean.1 (omega arith) (omega arith) (omega arith)
              (Saved-byte k m a p c v star n saved) in
          loop-byte f a p c v star h
          ∙ onward
          ∙ ap (λ (b : Bool). some (b || back star)) (sym (matches-byte a p c v h clean.0))
      | inr h ↦ elim (Bool-cases (a == any_run)) [
        | inl r ↦
            let onward =
              like_loop-matches f k m p (c ∷ v) (some (p, c ∷ v)) clean long (omega arith)
                (omega arith) (omega arith, long, omega arith, clean, λ l. l) in
            loop-run f a p c v star h r
            ∙ onward
            ∙ ap some (ground (arith, matches-run a p c v r, back-run k m a p c v star r saved))
        | inr r ↦
            let again =
              retry-matches k m (a ∷ p) v c star (like_loop f) saved
                (λ m' sp sv e clean' long' small'.
                  like_loop-matches f k m' sp sv (some (sp, sv)) clean' long' small'
                    (fuel_left k m m' (length sp + length sv) (length p + length v + 2) f e small'
                      (omega arith))
                    (omega arith, long', small', clean', λ l. l)) in
            loop-stuck f a p c v star h r
            ∙ again
            ∙ ap (λ (b : Bool). some (b || back star)) (sym (matches-stuck a p c v h r))
      ]
    ]

-- On runes of which none in the value is a percent sign, LIKE answers, and as its meaning says.
pub like_runes-matches : (p v : List ℕ) → HasNoRun v → like_runes p v ≡ some (matches p v)
unfolding like_runes
like_runes-matches p v clean =
    like_loop-matches _ (length p + length v + 1) (length v + 1) p v none clean (omega arith)
      (omega arith) (omega arith) tt
    ∙ ap some (ground arith)

matches-one_run : (v : List ℕ) → matches (any_run ∷ []) v ≡ true
unfolding matches
matches-one_run [] = refl
matches-one_run (c ∷ v) = ground (arith, matches-one_run v)

run_fails :
    (f n c : ℕ) (v : List ℕ)
    → n ≡ suc (suc f)
    → like_loop n (any_run ∷ []) (any_run ∷ c ∷ v) none ≡ some false
unfolding like_loop
run_fails f n c v e = rw e refl

enough :
    (n : ℕ)
    → (k : ℕ) × (suc ((suc (suc n) + 1) * (1 + suc (suc n) + 1) + (1 + suc (suc n))) ≡ suc (suc k))
enough n = ((suc (suc n) + 1) * (1 + suc (suc n) + 1) + suc (suc n), omega arith)

-- The pattern '%' alone does not match a value of two runes or more that begins with a percent sign,
-- although it means any value.
pub like_runes_run :
    (c : ℕ) (v : List ℕ)
    → (like_runes (any_run ∷ []) (any_run ∷ c ∷ v) ≡ some false)
      × (matches (any_run ∷ []) (any_run ∷ c ∷ v) ≡ true)
unfolding like_runes
like_runes_run c v =
    let (k, e) = enough (length v) in (run_fails k _ c v e, matches-one_run (any_run ∷ c ∷ v))
