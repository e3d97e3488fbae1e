-- ===== src/Prelude/Unique.antt =====
-- A Go map holds each key once: the writes of `Map` keep that of an association list, and a loop over
-- its entries finds each where the map has it.
use mathlib.Core.Path.{◌≡◌, refl}
use mathlib.Core.Logic.{inl, inr}
use mathlib.Core.List.{[], ◌∷◌}
use mathlib.Core.Option.{none, some}
use native.Mathlib.Omega.{arith}
use super_db.Prelude.Tests.{Bool-cases}
use super_db.Prelude.Eq.{Eq, beq_refl}
use super_db.Prelude.Map.{Map, get, put, remove, get-put, get-remove}

module _ {ℓ κ} {K : Type ℓ} {V : Type κ} ⦃e : Eq K⦄ where
  abbrev pub Unique : Map K V → Type κ
  Unique [] = Unit
  Unique ((k, v) ∷ m) = (get m k ≡ none) × Unique m

  -- Each entry of the list is the one that `m` has for its key.
  abbrev pub Fits : Map K V → Map K V → Type κ
  Fits [] m = Unit
  Fits ((k, v) ∷ es) m = (get m k ≡ some v) × (get es k ≡ none) × Fits es m

  pub Unique-put : (m : Map K V) (k : K) (v : V) → Unique m → Unique (put m k v)
  unfolding get put
  Unique-put [] k v h = (refl, tt)
  Unique-put ((j, w) ∷ m) k v h = elim (Bool-cases (e.beq j k)) [
    | inl b ↦ rw b h
    | inr b ↦ rw b (
      ground (arith, b, get-put m k v j, e.beq_iff j k, e.beq_iff k j, h.0),
      Unique-put m k v h.1,
    )
  ]

  pub Unique-remove : (m : Map K V) (k : K) → Unique m → Unique (remove m k)
  unfolding get remove
  Unique-remove [] k h = tt
  Unique-remove ((j, w) ∷ m) k h = elim (Bool-cases (e.beq j k)) [
    | inl b ↦ rw b (Unique-remove m k h.1)
    | inr b ↦ rw b (ground (arith, get-remove m k j, h.0), Unique-remove m k h.1)
  ]

  pub Fits-put :
      (es m : Map K V) (k : K) (v : V) → get es k ≡ none → Fits es m → Fits es (put m k v)
  unfolding get
  Fits-put [] m k v h f = tt
  Fits-put ((j, w) ∷ es) m k v h f = (
    ground (arith, get-put m k v j, e.beq_iff j k, e.beq_iff k j, h, f.0),
    f.1,
    Fits-put es m k v (ground (arith, h)) f.2,
  )

  Fits-of_Unique :
      (es m : Map K V)
      → Unique es
      → ((k : K) (v : V) → get es k ≡ some v → get m k ≡ some v)
      → Fits es m
  unfolding get
  Fits-of_Unique [] m u h = tt
  Fits-of_Unique ((j, w) ∷ es) m u h = (
    h j w (ground (arith, beq_refl j)),
    u.0,
    Fits-of_Unique es m u.1 (λ k v g. h k v (ground (arith, e.beq_iff j k, g, u.0))),
  )

  pub Fits-self : (m : Map K V) → Unique m → Fits m m
  Fits-self m u = Fits-of_Unique m m u (λ k v g. g)
