-- ===== src/Engine/Fold/First.antt =====
-- What the searches of fold.go find.
use super_db.Prelude.{
  refl, ℕ, Text, drop, ◌≡◌, some, true, ◌+◌, ◌<◌, arith, false, ◌∷◌, Bool-cases, inl, inr, suc, [],
  Bool, length, zero, Option, none, ◌⊎◌, ◌==◌, ◌&&◌, not, ◌||◌,
}
use super_db.Engine.Fold.{
  index_fold, index_fold_from, fold_equal_at, index_keyword, index_keyword_from, quote_at,
  inside_word, word_ends,
}

-- `sub` is found at `i` behind `start`, and nowhere before it.
abbrev pub IsFirst : Text → Text → ℕ → Type 0
IsFirst s sub i =
    (fold_equal_at (drop i s) sub ≡ true) × ((j : ℕ) → j < i → fold_equal_at (drop j s) sub ≡ false)

index_fold_from-IsFirst :
    (at : ℕ) (s sub : Text) (i : ℕ)
    → index_fold_from at s sub ≡ some i
    → (k : ℕ) × (i ≡ at + k) × IsFirst s sub k
unfolding index_fold_from
index_fold_from-IsFirst at [] sub i h = ground (arith, h)
index_fold_from-IsFirst at (c ∷ s) sub i h = elim (Bool-cases (fold_equal_at (c ∷ s) sub)) [
  | inl e ↦ (0, ground (arith, e, h), (e, λ j l. absurd (omega arith)))
  | inr e ↦
      let (k, same, first) = index_fold_from-IsFirst (at + 1) s sub i (ground (arith, e, h)) in
      (suc k, omega (arith, same), (first.0, shift (c ∷ s) sub k e first.1))
]
  where
    shift :
        (s sub : Text) (k : ℕ)
        → fold_equal_at s sub ≡ false
        → ((j : ℕ) → j < k → fold_equal_at (drop j (drop 1 s)) sub ≡ false)
        → (j : ℕ) → j < suc k
        → fold_equal_at (drop j s) sub ≡ false
    shift s sub k e before zero l = e
    shift [] sub k e before (suc j) l = e
    shift (c ∷ s) sub k e before (suc j) l = before j (omega arith)

-- A text that is not empty is found where it first stands, whatever its case.
pub index_fold-IsFirst :
    (s sub : Text) (i : ℕ) → 0 < length sub → index_fold s sub ≡ some i → IsFirst s sub i
unfolding index_fold
index_fold-IsFirst s sub i h found =
    let (k, same, first) = index_fold_from-IsFirst 0 s sub i (ground (arith, h, found)) in
    let here : i ≡ k = omega (arith, same) in rw here first

-- Where the loop finds a keyword at a byte, the keyword is there or behind the byte.
keyword-step :
    (quoted : Bool) (before : Option ℕ) (at c : ℕ) (s keyword : Text) (i : ℕ)
    → index_keyword_from false quoted before at (c ∷ s) keyword ≡ some i
    → ((i ≡ at) × (fold_equal_at (c ∷ s) keyword ≡ true))
      ⊎ ((skip : Bool) × (q : Bool) × (index_keyword_from skip q (some c) (at + 1) s keyword
            ≡ some i))
unfolding index_keyword_from
keyword-step quoted before at c s keyword i h = elim (Bool-cases (c == 39)) [
  | inl b ↦ elim (Bool-cases (quoted && quote_at s)) [
    | inl d ↦ inr (true, quoted, ground (arith, h, b, d))
    | inr d ↦ inr (false, not quoted, ground (arith, h, b, d))
  ]
  | inr b ↦ elim (Bool-cases (quoted || inside_word before)) [
    | inl d ↦ inr (false, quoted, ground (arith, h, b, d))
    | inr d ↦
        elim (Bool-cases
          (fold_equal_at (c ∷ s) keyword && word_ends (drop (length keyword) (c ∷ s)))) [
            | inl e ↦ inl (ground (arith, h, b, d, e), ground (arith, e))
            | inr e ↦ inr (false, quoted, ground (arith, h, b, d, e))
          ]
  ]
]

keyword-end :
    (skip quoted : Bool) (before : Option ℕ) (at : ℕ) (keyword : Text)
    → index_keyword_from skip quoted before at [] keyword ≡ none
unfolding index_keyword_from
keyword-end skip quoted before at keyword = refl

index_keyword_from-found :
    (skip quoted : Bool) (before : Option ℕ) (at : ℕ) (s keyword : Text) (i : ℕ)
    → index_keyword_from skip quoted before at s keyword ≡ some i
    → (k : ℕ) × (i ≡ at + k) × (fold_equal_at (drop k s) keyword ≡ true)
unfolding index_keyword_from
index_keyword_from-found skip quoted before at [] keyword i h =
    ground (arith, h, keyword-end skip quoted before at keyword)
index_keyword_from-found true quoted before at (c ∷ s) keyword i h =
    let (k, same, found) = index_keyword_from-found false quoted (some c) (at + 1) s keyword i h in
    (suc k, omega (arith, same), found)
index_keyword_from-found false quoted before at (c ∷ s) keyword i h =
    elim (keyword-step quoted before at c s keyword i h) [
      | inl (same, found) ↦ (0, omega (arith, same), found)
      | inr (skip, q, later) ↦
          let (k, same, found) =
            index_keyword_from-found skip q (some c) (at + 1) s keyword i later in
          (suc k, omega (arith, same), found)
    ]

-- Where a keyword is found, it stands, whatever its case.
pub index_keyword-found :
    (s keyword : Text) (i : ℕ)
    → index_keyword s keyword ≡ some i
    → fold_equal_at (drop i s) keyword ≡ true
unfolding index_keyword
index_keyword-found s keyword i h =
    let (k, same, found) = index_keyword_from-found false false none 0 s keyword i h in
    let here : i ≡ k = omega (arith, same) in rw here found
