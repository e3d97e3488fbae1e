-- ===== src/Engine/Insert/Synthetic.antt =====
-- `nextSyntheticKeyLocked` ends, with a key that no row has.
use super_db.Prelude.Decimal.{format_uint, format_uint-injective}
use super_db.Engine.Value.{Row}
use super_db.Prelude.Map.{has, remove, Map, get, has-remove}
use super_db.Prelude.{
  ℕ, ◌<◌, Text, text_eq, ◌∷◌, length, ◌+◌, ◌≡◌, false, some, true, ◌≤◌, Bool-cases, arith, suc, ◌^◌,
  inl, text_instance, ◌%◌, inr, zero, refl, text_eq_iff, [], sym, ◌∙◌,
}
use super_db.Engine.Table.{next_synthetic_key}

synthetic_ne : (m n : ℕ) → m < n → text_eq (b'#' ∷ format_uint m) (b'#' ∷ format_uint n) ≡ false
synthetic_ne m n h = elim (Bool-cases (text_eq (b'#' ∷ format_uint m) (b'#' ∷ format_uint n))) [
  | inl b ↦ absurd (omega (arith, format_uint-injective m n (cc ((text_eq_iff _ _).0 b))))
  | inr b ↦ b
]

module _ {F : Type 0} where
  pub next_synthetic_key_fresh :
      (f : ℕ) (rows : Map Text (Row F)) (n : ℕ) (key : Text) (next : ℕ)
      → next_synthetic_key f rows n ≡ some (key, next)
      → has rows key ≡ false
  unfolding next_synthetic_key
  next_synthetic_key_fresh zero rows n key next h = cc
  next_synthetic_key_fresh (suc f) rows n key next h =
      elim (Bool-cases (has rows (b'#' ∷ format_uint n))) [
        | inl b ↦ next_synthetic_key_fresh f rows ((n + 1) % 2 ^ 64) key next (rw b at h)
        | inr b ↦ ground (arith, rw b at h)
      ]

  length-remove_le : (rows : Map Text (Row F)) (k : Text) → length (remove rows k) ≤ length rows
  unfolding remove
  length-remove_le [] k = omega arith
  length-remove_le ((j, r) ∷ rows) k = ground (arith, length-remove_le rows k)

  length-remove_lt :
      (rows : Map Text (Row F)) (k : Text)
      → has rows k ≡ true
      → length (remove rows k) < length rows
  unfolding remove has get
  length-remove_lt [] k h = cc
  length-remove_lt ((j, r) ∷ rows) k h =
      ground (arith, length-remove_le rows k, length-remove_lt rows k)

  -- A key behind the counter is not met any more.
  next_synthetic_key-remove :
      (f : ℕ) (rows : Map Text (Row F)) (m n : ℕ)
      → m < n
      → n + f ≤ 2 ^ 64
      → next_synthetic_key f (remove rows (b'#' ∷ format_uint m)) n ≡ next_synthetic_key f rows n
  unfolding next_synthetic_key
  next_synthetic_key-remove zero rows m n h b = refl
  next_synthetic_key-remove (suc zero) rows m n h b =
      ground
        (arith, has-remove rows (b'#' ∷ format_uint m) (b'#' ∷ format_uint n), synthetic_ne m n h)
  next_synthetic_key-remove (suc (suc f)) rows m n h b =
      let below : (n + 1) % 2 ^ 64 ≡ n + 1 = omega arith in
      rw (
        has-remove rows (b'#' ∷ format_uint m) (b'#' ∷ format_uint n),
        synthetic_ne m n h,
        below,
        next_synthetic_key-remove (suc f) rows m (n + 1) (omega arith) (omega arith),
      )

  next_synthetic_key_taken :
      (f : ℕ) (rows : Map Text (Row F)) (n : ℕ)
      → has rows (b'#' ∷ format_uint n) ≡ true
      → n + 1 < 2 ^ 64
      → next_synthetic_key (suc f) rows n ≡ next_synthetic_key f rows (n + 1)
  unfolding next_synthetic_key
  next_synthetic_key_taken f rows n taken b =
      let below : (n + 1) % 2 ^ 64 ≡ n + 1 = omega arith in rw (taken, below)

  -- The loop stops within one round more than there are rows, where its counter does not wrap.
  pub next_synthetic_key_total :
      (f : ℕ) (rows : Map Text (Row F)) (n : ℕ)
      → length rows < f
      → n + f ≤ 2 ^ 64
      → (r : Text × ℕ) × (next_synthetic_key f rows n ≡ some r)
  unfolding next_synthetic_key
  next_synthetic_key_total zero rows n h b = absurd (omega arith)
  next_synthetic_key_total (suc zero) rows n h b =
      elim (Bool-cases (has rows (b'#' ∷ format_uint n))) [
        | inr free ↦ ((b'#' ∷ format_uint n, (n + 1) % 2 ^ 64), rw free)
        | inl taken ↦ absurd (omega (arith, length-remove_lt rows (b'#' ∷ format_uint n) taken))
      ]
  next_synthetic_key_total (suc (suc f)) rows n h b =
      let key = b'#' ∷ format_uint n in
      elim (Bool-cases (has rows key)) [
        | inr free ↦ ((key, (n + 1) % 2 ^ 64), rw free)
        | inl taken ↦
            let (r, e) =
              next_synthetic_key_total (suc f) (remove rows key) (n + 1)
                (omega (arith, length-remove_lt rows key taken)) (omega arith) in
            (
              r,
              next_synthetic_key_taken (suc f) rows n taken (omega arith)
                  ∙ sym
                      (next_synthetic_key-remove (suc f) rows n (n + 1) (omega arith) (omega arith))
                  ∙ e,
            )
      ]

  -- The search for a synthetic key ends within one round more than there are rows, where its counter
  -- does not wrap, and the key that it finds has no row.
  pub next_synthetic_key_lem :
      (f : ℕ) (rows : Map Text (Row F)) (n : ℕ)
      → length rows < f
      → n + f ≤ 2 ^ 64
      → (r : Text × ℕ) × (next_synthetic_key f rows n ≡ some r) × (has rows r.0 ≡ false)
  next_synthetic_key_lem f rows n h b =
      let ((key, next), e) = next_synthetic_key_total f rows n h b in
      ((key, next), e, next_synthetic_key_fresh f rows n key next e)
