-- ===== src/Prelude/Map.antt =====
-- Go's maps and sets as association lists. A write replaces the entry of its key in place.
-- Where the program ranges over a map, the list's order stands for the order that Go picks.
use mathlib.Core.Path.{◌≡◌, refl}
use mathlib.Core.Bool.{Bool, true, false}
use mathlib.Core.List.{List, [], ◌∷◌}
use mathlib.Core.Option.{Option, none, some}
use native.Mathlib.Omega.{arith}
use super_db.Prelude.Tests.{if◌then◌else◌}
use super_db.Prelude.Eq.{Eq}

abbrev pub Map {ℓ κ} : Type ℓ → Type κ → Type (ℓ ⊔ κ)
Map K V = List (K × V)

abbrev pub is_some {ℓ} : {A : Type ℓ} → Option A → Bool
is_some none = false
is_some (some _) = true

abbrev pub get_or {ℓ} : {A : Type ℓ} → Option A → A → A
get_or none d = d
get_or (some a) d = a

module _ {ℓ κ} {K : Type ℓ} {V : Type κ} ⦃e : Eq K⦄ where
  unfoldable pub get : Map K V → K → Option V
  get [] k = none
  get ((j, v) ∷ m) k = if e.beq j k then some v else get m k

  unfoldable pub put : Map K V → K → V → Map K V
  put [] k v = (k, v) ∷ []
  put ((j, w) ∷ m) k v = if e.beq j k then (j, v) ∷ m else (j, w) ∷ put m k v

  unfoldable pub remove : Map K V → K → Map K V
  remove [] k = []
  remove ((j, v) ∷ m) k = let rest = remove m k in if e.beq j k then rest else (j, v) ∷ rest

  unfoldable pub has : Map K V → K → Bool
  unfolding get
  has m k = is_some (get m k)

  pub get-put :
      (m : Map K V) (k : K) (v : V) (j : K)
      → get (put m k v) j ≡ (if e.beq k j then some v else get m j)
  unfolding get put
  get-put [] k v j = refl
  get-put ((i, w) ∷ m) k v j =
      ground (arith, e.beq_iff i k, e.beq_iff i j, e.beq_iff k j, get-put m k v j)

  pub get-remove :
      (m : Map K V) (k j : K) → get (remove m k) j ≡ (if e.beq k j then none else get m j)
  unfolding get remove
  get-remove [] k j = ground arith
  get-remove ((i, w) ∷ m) k j =
      ground (arith, e.beq_iff i k, e.beq_iff i j, e.beq_iff k j, get-remove m k j)

  pub get_of_has : (m : Map K V) (k : K) → has m k ≡ false → get m k ≡ none
  unfolding has
  get_of_has m k h = ground arith

  pub has-remove :
      (m : Map K V) (k j : K) → has (remove m k) j ≡ (if e.beq k j then false else has m j)
  unfolding has
  has-remove m k j = ground (arith, get-remove m k j)

  pub has-put :
      (m : Map K V) (k : K) (v : V) (j : K)
      → has (put m k v) j ≡ (if e.beq k j then true else has m j)
  unfolding has
  has-put m k v j = ground (arith, get-put m k v j)
