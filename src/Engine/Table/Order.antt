-- ===== src/Engine/Table/Order.antt =====
-- The scan order of a table: each row's key stands in it once, and what else stands in it are the
-- tombstones of deleted keys, of which there are none where `dead` is 0.
use super_db.Engine.Value.{Row}
use super_db.Prelude.Map.{Map, has}
use super_db.Prelude.{
  Bool, List, Text, arith, ◌≡◌, if◌then◌else◌, length, ℕ, ◌++◌, text_instance, true, ◌+◌, ◌∷◌,
  Bool-cases, [], false, text_eq, text_eq_iff, ◌==◌, inl, inr, ltb, ◌*◌, refl,
}
use super_db.Engine.Table.{Table, live_keys, reclaim, compact_order}
use super_db.Engine.Table.Frame.{SameView, SameRows-reclaim, SameView-rebuild_fast_path}

abbrev pub to_nat : Bool → ℕ
to_nat true = 1
to_nat false = 0

unfoldable pub occurs : Text → List Text → ℕ
occurs k [] = 0
occurs k (j ∷ js) = to_nat (text_eq j k) + occurs k js

pub occurs-append : (k : Text) (xs ys : List Text) → occurs k (xs ++ ys) ≡ occurs k xs + occurs k ys
unfolding occurs
occurs-append k [] ys = omega arith
occurs-append k (x ∷ xs) ys = omega (arith, occurs-append k xs ys)

pub occurs-snoc :
    (k : Text) (xs : List Text) (j : Text)
    → occurs k (xs ++ (j ∷ [])) ≡ occurs k xs + to_nat (text_eq j k)
unfolding occurs
occurs-snoc k xs j = omega (arith, occurs-append k xs (j ∷ []))

module _ {F : Type 0} where
  pub occurs-live_keys :
      (rows : Map Text (Row F)) (k : Text) (order : List Text)
      → occurs k (live_keys rows order) ≡ (if has rows k then occurs k order else 0)
  unfolding occurs live_keys
  occurs-live_keys rows k [] = ground arith
  occurs-live_keys rows k (j ∷ js) = ground (arith, occurs-live_keys rows k js, text_eq_iff j k)

  pub record IsOrdered (t : Table F) : Type 0 where
    pub once : (k : Text) → has t.rows k ≡ true → occurs k t.order ≡ 1
    pub clean : t.dead ≡ 0 → (k : Text) → has t.rows k ≡ false → occurs k t.order ≡ 0

  pub SameView-IsOrdered : {t u : Table F} → SameView t u → IsOrdered t → IsOrdered u
  SameView-IsOrdered s h = record {
    once = λ k l. ground (arith, h.once k, s.rows, s.order, l);
    clean = λ d k l. ground (arith, h.clean (ground (arith, s.dead, d)) k, s.rows, s.order, l);
  }

  pub dead-reclaim : (t : Table F) → (reclaim t).dead ≡ 0
  unfolding reclaim
  dead-reclaim t =
      ground (
        arith,
        SameView-rebuild_fast_path (record t { order = live_keys t.rows t.order; dead = 0 }),
      )

  order-reclaim : (t : Table F) → (reclaim t).order ≡ live_keys t.rows t.order
  unfolding reclaim
  order-reclaim t =
      ground (
        arith,
        SameView-rebuild_fast_path (record t { order = live_keys t.rows t.order; dead = 0 }),
      )

  pub occurs-reclaim :
      (t : Table F) (k : Text)
      → occurs k (reclaim t).order ≡ (if has t.rows k then occurs k t.order else 0)
  occurs-reclaim t k = rw (order-reclaim t) (occurs-live_keys t.rows k t.order)

  pub reclaim-IsOrdered : (t : Table F) → IsOrdered t → IsOrdered (reclaim t)
  reclaim-IsOrdered t h = record {
    once = λ k l. ground (arith, h.once k, occurs-reclaim t k, SameRows-reclaim t, l);
    clean = λ d k l. ground (arith, occurs-reclaim t k, SameRows-reclaim t, l);
  }

  pub compact_order-IsOrdered : (t : Table F) → IsOrdered t → IsOrdered (compact_order t)
  unfolding compact_order
  compact_order-IsOrdered t h = elim (Bool-cases (length t.order == 0)) [
    | inl b ↦ rw b (record { once = h.once; clean = λ d k l. empty t.order k (ground (arith, b)) })
    | inr b ↦ rw b (elim (Bool-cases (ltb (t.dead * 4) (length t.order))) [
      | inl c ↦ rw c h
      | inr c ↦ rw c (reclaim-IsOrdered t h)
    ])
  ]
    where
      empty : (order : List Text) (k : Text) → length order ≡ 0 → occurs k order ≡ 0
      empty [] k e = unfold occurs in refl
      empty (j ∷ js) k e = absurd (omega arith)
