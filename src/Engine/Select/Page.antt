-- ===== src/Engine/Select/Page.antt =====
-- The window that LIMIT, OFFSET and MaxRows cut out of the rows that a SELECT finds.
use super_db.Engine.Select.{apply_offset, max_int, row_cap, sat_add}
use super_db.Engine.Select.Rows.{cap_result_rows}
use super_db.Engine.Select.Scan.{Lines, failed, too_large}
use super_db.Engine.Value.{Floats}
use super_db.Prelude.{
  ℕ, List, Option, none, some, false, ◌∷◌, [], ◌≡◌, ◌≤◌, ◌<◌, ◌+◌, ◌-◌, refl, ap, ◌∙◌, sym, arith,
  length, ltb, take, drop, length-drop, zero, suc, Bool-cases, inl, inr, ◌⊎◌, tests, leb,
}

-- The first rows, as many as a cap allows
abbrev pub cut {ℓ} : {A : Type ℓ} → Option ℕ → List A → List A
cut none xs = xs
cut (some n) xs = take n xs

module _ {ℓ} {A : Type ℓ} where
  pub take_all : (n : ℕ) (xs : List A) → length xs ≤ n → take n xs ≡ xs
  take_all zero [] h = refl
  take_all zero (x ∷ xs) h = absurd (omega (arith, h))
  take_all (suc n) [] h = refl
  take_all (suc n) (x ∷ xs) h = ap (◌∷◌ x) (take_all n xs (omega (arith, h)))

  length-take : (n : ℕ) (xs : List A) → n ≤ length xs → length (take n xs) ≡ n
  length-take zero xs h = refl
  length-take (suc n) [] h = absurd (omega (arith, h))
  length-take (suc n) (x ∷ xs) h = omega (arith, length-take n xs (omega (arith, h)))

  take_equal : {a b : ℕ} (ys : List A) → a ≡ b → take a ys ≡ take b ys
  take_equal ys e = ap (λ (n : ℕ). take n ys) e

  drop-take : (o c : ℕ) (xs : List A) → drop o (take c xs) ≡ take (c - o) (drop o xs)
  drop-take zero c xs = take_equal {a = c} {b = c - 0} xs (omega arith)
  drop-take (suc o) zero xs = take_equal {a = 0} {b = 0 - suc o} (drop (suc o) xs) (omega arith)
  drop-take (suc o) (suc c) [] = sym (take_all (suc c - suc o) [] (omega arith))
  drop-take (suc o) (suc c) (x ∷ xs) =
      drop-take o c xs ∙ take_equal {a = c - o} {b = suc c - suc o} (drop o xs) (omega arith)

  drop_past : (o : ℕ) (xs : List A) → length xs ≤ o → drop o xs ≡ []
  drop_past zero [] h = refl
  drop_past zero (x ∷ xs) h = absurd (omega (arith, h))
  drop_past (suc o) [] h = refl
  drop_past (suc o) (x ∷ xs) h = drop_past o xs (omega (arith, h))

  pub apply_offset_lem : (o : ℕ) (xs : List A) → apply_offset o xs ≡ drop o xs
  unfolding apply_offset
  apply_offset_lem zero xs = refl
  apply_offset_lem (suc o) xs =
      let some_offset : leb (suc o) 0 ≡ false = ground arith in
      elim (Bool-cases (leb (length xs) (suc o))) [
        | inl b ↦ rw (some_offset, b) (sym (drop_past (suc o) xs (omega (tests, b))))
        | inr b ↦ rw (some_offset, b) refl
      ]

  -- Caps above the length take the same.
  take_same :
      (a b : ℕ) (ys : List A)
      → (a ≡ b) ⊎ ((length ys ≤ a) × (length ys ≤ b))
      → take a ys ≡ take b ys
  take_same a b ys (inl e) = take_equal ys e
  take_same a b ys (inr (p, q)) = take_all a ys p ∙ sym (take_all b ys q)

pub sat_add_cases :
    (a b : ℕ)
    → b ≤ max_int
    → ((sat_add a b ≡ a + b) × (a + b ≤ max_int)) ⊎ ((sat_add a b ≡ max_int) × (max_int < a + b))
unfolding sat_add
sat_add_cases a b h = ground arith

module _ {F : Type 0} ⦃fl : Floats F⦄ where
  refuse : (m : ℕ) (ys : Lines F) → 0 < m → m < length ys → cap_result_rows m ys ≡ failed too_large
  unfolding cap_result_rows
  refuse m ys p q = ground arith

  refuse_take :
      (m a : ℕ) (ys : Lines F)
      → 0 < m
      → m < a
      → m < length ys
      → cap_result_rows m (take a ys) ≡ failed too_large
  refuse_take m a ys p q r = elim (Bool-cases (ltb a (length ys))) [
    | inl b ↦ refuse m (take a ys) p (omega (tests, length-take a ys (omega (tests, b)), q))
    | inr b ↦ ap (cap_result_rows m) (take_all a ys (omega (tests, b))) ∙ refuse m ys p r
  ]

  -- Two caps above the most rows give the same answer.
  cap_result_rows-take :
      (m a : ℕ) (ys : Lines F)
      → 0 < m
      → m < a
      → cap_result_rows m (take a ys) ≡ cap_result_rows m ys
  cap_result_rows-take m a ys p q = elim (Bool-cases (ltb m (length ys))) [
    | inl b ↦ refuse_take m a ys p q (omega (tests, b)) ∙ sym (refuse m ys p (omega (tests, b)))
    | inr b ↦ ap (cap_result_rows m) (take_all a ys (omega (tests, b, q)))
  ]

  module _ (m o : ℕ) (xs : Lines F) (offset_fits : o ≤ max_int) (most_fits : m ≤ max_int)
      (rows_fit : length xs ≤ max_int) where
    rest : Lines F
    rest = drop o xs

    length-rest : length rest ≤ max_int - o
    unfolding rest
    length-rest = omega (arith, length-drop o xs, rows_fit)

    -- a window whose cap is the limit and the offset together
    by_limit :
        (n : ℕ)
        → cap_result_rows m (drop o (take (sat_add n o) xs)) ≡ cap_result_rows m (take n rest)
    unfolding rest
    by_limit n = ap (cap_result_rows m) (
        drop-take o (sat_add n o) xs
        ∙ take_same (sat_add n o - o) n (drop o xs) (elim (sat_add_cases n o offset_fits) [
          | inl (e, f) ↦ inl (omega (arith, e))
          | inr (e, f) ↦ inr (
            omega (arith, e, length-drop o xs, rows_fit),
            omega (arith, f, length-drop o xs, rows_fit),
          )
        ]))

    -- a window whose cap is one row more than allowed
    emit_cap : ℕ
    emit_cap = sat_add (sat_add m o) 1

    emit_cap_cases : (emit_cap ≡ m + o + 1) ⊎ (emit_cap ≡ max_int)
    unfolding emit_cap sat_add
    emit_cap_cases = ground arith

    by_most : 0 < m → cap_result_rows m (drop o (take emit_cap xs)) ≡ cap_result_rows m rest
    unfolding rest
    by_most p = elim emit_cap_cases [
      | inl e ↦
          ap (cap_result_rows m) (drop-take o emit_cap xs)
          ∙ cap_result_rows-take m (emit_cap - o) (drop o xs) p (omega (arith, e))
      | inr e ↦
          ap (λ (ys : Lines F). cap_result_rows m (drop o ys))
            (take_all emit_cap xs (omega (arith, e, rows_fit)))
    ]

    above_most : (n : ℕ) → 0 < m → emit_cap < sat_add n o → m < n
    unfolding emit_cap sat_add
    above_most n p h = ground (arith, offset_fits, most_fits)

    -- LIMIT, OFFSET and MaxRows keep, of the rows that were found, those that the limit allows behind the
    -- offset, or refuse where these are too many: the caps that end the scan early, which stop at
    -- MaxInt, change neither, if the two settings and the number of rows are an int.
    pub cap_result_rows-page :
        (limit : Option ℕ)
        → cap_result_rows m (apply_offset o (cut (row_cap limit o m) xs))
          ≡ cap_result_rows m (cut limit (drop o xs))
    unfolding row_cap emit_cap rest
    cap_result_rows-page none =
        ap (cap_result_rows m) (apply_offset_lem o (cut (row_cap none o m) xs))
        ∙ elim (Bool-cases (ltb 0 m)) [
          | inl b ↦ rw b (by_most (omega (tests, b)))
          | inr b ↦ rw b refl
        ]
    cap_result_rows-page (some n) =
        ap (cap_result_rows m) (apply_offset_lem o (cut (row_cap (some n) o m) xs))
        ∙ elim (Bool-cases (ltb 0 m)) [
          | inr b ↦ rw b (by_limit n)
          | inl b ↦ elim (Bool-cases (ltb emit_cap (sat_add n o))) [
            | inr c ↦ rw (b, c) (by_limit n)
            | inl c ↦
                let p : 0 < m = omega (tests, b) in
                rw (b, c)
                  (by_most p
                    ∙ sym (cap_result_rows-take m n rest p (above_most n p (omega (tests, c)))))
          ]
        ]
