-- ===== src/Cluster/Ranges/Ids.antt =====
-- The ids of the directory: each range stands under its own, and none is at or above the next one.
use super_db.Prelude.Map.{get, get-remove, get-put}
use super_db.Prelude.{
  nat_eq, ℕ, List, ◌<◌, length, ◌+◌, ◌∷◌, ◌≡◌, some, ◌^◌, ◌≤◌, [], arith, text_instance,
  Option-cases, inl, inr,
}
use super_db.Cluster.Ranges.{
  RangeStore, RangeOp, Range, apply_op, place, place_all, remove_ranges, rewrite, remove, ok,
  check_generations,
}

-- The ids of a list leave room below 2 ^ 64 for `n` more.
abbrev pub IsRoomy : ℕ → List Range → Type 0
IsRoomy n [] = Unit
IsRoomy n (r ∷ rs) = (r.id + 1 + n < 2 ^ 64) × IsRoomy n rs

-- A step of the loop over op.Ranges keeps the next id within the room that is left.
pub place-next :
    (s : RangeStore) (r : Range) (n left : ℕ)
    → r.id + 1 + n < 2 ^ 64
    → left ≤ n
    → s.next_id + (left + 1) < 2 ^ 64
    → (place s r).next_id + left < 2 ^ 64
unfolding place
place-next s r n left fit long room = ground arith

abbrev pub IsNumbered : RangeStore → Type 0
IsNumbered s =
    (k : ℕ) (r : Range) → get s.ranges k ≡ some r → (r.id ≡ k) × (0 < k) × (k < s.next_id)

place-IsNumbered :
    (s : RangeStore) (r : Range)
    → r.id + 1 < 2 ^ 64
    → s.next_id + 1 < 2 ^ 64
    → 0 < s.next_id
    → IsNumbered s
    → (0 < (place s r).next_id) × IsNumbered (place s r)
unfolding place
place-IsNumbered s r fit room first ids = (
  ground arith,
  λ k q g. ground (
    arith,
    g,
    ids k q,
    get-put s.ranges s.next_id (record r { id = s.next_id }) k,
    get-put s.ranges r.id r k,
  ),
)

remove_ranges-IsNumbered :
    (gone : List ℕ) (s : RangeStore)
    → IsNumbered s
    → IsNumbered (record s { ranges = remove_ranges gone s.ranges })
unfolding remove_ranges
remove_ranges-IsNumbered [] s ids = ids
remove_ranges-IsNumbered (j ∷ js) s ids =
    remove_ranges-IsNumbered js (record s { ranges = remove s.ranges j })
      (λ k r g. ids k r (ground (arith, g, get-remove s.ranges j k)))

place_all-IsNumbered :
    (n : ℕ) (rs : List Range) (s : RangeStore)
    → IsRoomy n rs
    → length rs ≤ n
    → s.next_id + length rs < 2 ^ 64
    → 0 < s.next_id
    → IsNumbered s
    → (0 < (place_all rs s).next_id) × IsNumbered (place_all rs s)
unfolding place_all
place_all-IsNumbered n [] s fits long room first ids = (first, ids)
place_all-IsNumbered n (r ∷ rs) s (fit, fits) long room first ids =
    let (first', ids') = place-IsNumbered s r (omega arith) (omega arith) first ids in
    place_all-IsNumbered n rs (place s r) fits (omega arith)
      (place-next s r n (length rs) (omega arith) (omega arith) (omega arith)) first' ids'

pub apply_op-rewrite :
    (s s' : RangeStore) (op : RangeOp) → apply_op s op ≡ ok s' → s' ≡ rewrite s op
unfolding apply_op
apply_op-rewrite s s' op h = elim (Option-cases (check_generations s.ranges op.base_generations)) [
  | inl e ↦ ground (arith, e, h)
  | inr (x, e) ↦ ground (arith, e, h)
]

-- An applied proposal leaves every range under its own id, which is positive and below the next id, as
-- long as ids stay below 2 ^ 64.
apply_op-IsNumbered :
    (s s' : RangeStore) (op : RangeOp)
    → IsRoomy (length op.ranges) op.ranges
    → s.next_id + length op.ranges < 2 ^ 64
    → 0 < s.next_id
    → IsNumbered s
    → apply_op s op ≡ ok s'
    → (0 < s'.next_id) × IsNumbered s'
apply_op-IsNumbered s s' op fits room first ids h = rw (apply_op-rewrite s s' op h) (
    unfold rewrite in
    place_all-IsNumbered (length op.ranges) op.ranges
      (record s { ranges = remove_ranges op.remove s.ranges }) fits (omega arith) room first
      (remove_ranges-IsNumbered op.remove s ids))
