-- ===== src/Cluster/Ranges/Fencing.antt =====
-- What a proposal against the range directory needs, and what it leaves behind.
use super_db.Prelude.Map.{get, Map, get-put}
use super_db.Cluster.Ranges.Ids.{IsRoomy, place-next, apply_op-rewrite}
use super_db.Prelude.{
  nat_eq, ℕ, List, ◌<◌, ◌≡◌, length, ◌+◌, ◌∷◌, some, ◌^◌, ◌≢◌, ◌≤◌, Bool-cases, Option-cases, [],
  arith, none, ◌==◌, false, inl, inr, leb, leb→le, ◌⊎◌,
}
use super_db.Cluster.Ranges.{
  RangeStore, RangeOp, Range, apply_op, check_generations, place, place_all, ok, remove_ranges,
  rewrite,
}

fenced :
    (m : Map ℕ Range) (base : Map ℕ ℕ)
    → check_generations m base ≡ none
    → (id gen : ℕ) → get base id ≡ some gen
    → (r : Range) × (get m id ≡ some r) × (r.generation ≡ gen)
unfolding check_generations get
fenced m [] c id gen g = cc
fenced m ((j, w) ∷ base) c id gen g = elim (Option-cases (get m j)) [
  | inl e ↦ ground (arith, e, c)
  | inr (r, e) ↦ elim (Bool-cases (j == id)) [
    | inl b ↦ (r, ground (arith, e, c, b, g), ground (arith, e, c, b, g))
    | inr b ↦ fenced m base (ground (arith, e, c)) id gen (ground (arith, b, g))
  ]
]

-- A proposal that is applied names, for every range that it was made against, the generation that the
-- directory has for the range.
pub apply_op_fenced :
    (s s' : RangeStore) (op : RangeOp)
    → apply_op s op ≡ ok s'
    → (id gen : ℕ) → get op.base_generations id ≡ some gen
    → (r : Range) × (get s.ranges id ≡ some r) × (r.generation ≡ gen)
unfolding apply_op
apply_op_fenced s s' op h id gen g =
    elim (Option-cases (check_generations s.ranges op.base_generations)) [
      | inl e ↦ fenced s.ranges op.base_generations e id gen g
      | inr (x, e) ↦ ground (arith, e, h)
    ]

-- The directory has `k` under a generation other than `gen`, and has handed out the ids up to `k`.
abbrev pub Moved : ℕ → ℕ → RangeStore → Type 0
Moved k gen s = (k < s.next_id) × (r : Range) × (get s.ranges k ≡ some r) × (r.generation ≢ gen)

-- A list has a range `k`.
abbrev pub Takes : ℕ → List Range → Type 0
Takes k [] = ⊥
Takes k (r ∷ rs) = (r.id ≡ k) ⊎ Takes k rs

-- No range of a list takes `k` under the generation `gen`.
abbrev pub Bumps : ℕ → ℕ → List Range → Type 0
Bumps k gen [] = Unit
Bumps k gen (r ∷ rs) = (r.id ≡ k → r.generation ≢ gen) × Bumps k gen rs

place-Moved :
    (k gen : ℕ) (s : RangeStore) (r : Range)
    → s.next_id + 1 < 2 ^ 64
    → r.id + 1 < 2 ^ 64
    → (r.id ≡ k → r.generation ≢ gen)
    → Moved k gen s
    → Moved k gen (place s r)
unfolding place
place-Moved k gen s r room fits bump (low, q, at, other) = elim (Bool-cases (r.id == 0)) [
  | inl z ↦ rw z (
    omega arith,
    q,
    ground (arith, z, at, get-put s.ranges s.next_id (record r { id = s.next_id }) k),
    other,
  )
  | inr z ↦ elim (Bool-cases (leb s.next_id r.id)) [
    | inl b ↦
        rw (z, b)
          (
            omega (arith, leb→le s.next_id r.id b),
            q,
            ground (arith, leb→le s.next_id r.id b, at, get-put s.ranges r.id r k),
            other,
          )
    | inr b ↦
        rw (z, b)
          (elim (Bool-cases (r.id == k)) [
            | inl e ↦
                (low, r, ground (arith, e, get-put s.ranges r.id r k), bump (ground (arith, e)))
            | inr e ↦ (low, q, ground (arith, e, at, get-put s.ranges r.id r k), other)
          ])
  ]
]

place-Moved_self :
    (gen : ℕ) (s : RangeStore) (r : Range)
    → r.id + 1 < 2 ^ 64
    → r.id ≢ 0
    → r.generation ≢ gen
    → Moved r.id gen (place s r)
unfolding place
place-Moved_self gen s r fits nonzero bump =
    let z : (r.id == 0) ≡ false = ground arith in
    elim (Bool-cases (leb s.next_id r.id)) [
      | inl b ↦ rw (z, b) (omega arith, r, ground (arith, get-put s.ranges r.id r r.id), bump)
      | inr b ↦ rw (z, b) (ground (arith, b), r, ground (arith, get-put s.ranges r.id r r.id), bump)
    ]

place_all-Moved :
    (k gen n : ℕ) (rs : List Range) (s : RangeStore)
    → IsRoomy n rs
    → length rs ≤ n
    → s.next_id + length rs < 2 ^ 64
    → Bumps k gen rs
    → Moved k gen s
    → Moved k gen (place_all rs s)
unfolding place_all
place_all-Moved k gen n [] s fits long room bump moved = moved
place_all-Moved k gen n (r ∷ rs) s (fit, fits) long room (b, bump) moved =
    place_all-Moved k gen n rs (place s r) fits (omega arith)
      (place-next s r n (length rs) (omega arith) (omega arith) (omega arith)) bump
      (place-Moved k gen s r (omega arith) (omega arith) b moved)

place_all-Moved_taken :
    (k gen n : ℕ) (rs : List Range) (s : RangeStore)
    → IsRoomy n rs
    → length rs ≤ n
    → s.next_id + length rs < 2 ^ 64
    → k ≢ 0
    → Takes k rs
    → Bumps k gen rs
    → Moved k gen (place_all rs s)
unfolding place_all
place_all-Moved_taken k gen n (r ∷ rs) s (fit, fits) long room nonzero takes (b, bump) =
    let next = place-next s r n (length rs) (omega arith) (omega arith) (omega arith) in
    elim takes [
      | inl e ↦
          place_all-Moved k gen n rs (place s r) fits (omega arith) next bump
            (rw (← e) (place-Moved_self gen s r (omega arith) (ground (arith, e, nonzero)) (b e)))
      | inr later ↦
          place_all-Moved_taken k gen n rs (place s r) fits (omega arith) next nonzero later bump
    ]
place_all-Moved_taken k gen n [] s fits long room nonzero takes bump = absurd takes

-- A proposal that gives a range a generation other than the one it was made against is not applied a
-- second time, whatever other ranges it writes, as long as ids stay below 2 ^ 64.
pub apply_op_once :
    (s s' s'' : RangeStore) (op : RangeOp) (k gen : ℕ)
    → IsRoomy (length op.ranges) op.ranges
    → s.next_id + length op.ranges < 2 ^ 64
    → k ≢ 0
    → Takes k op.ranges
    → Bumps k gen op.ranges
    → get op.base_generations k ≡ some gen
    → apply_op s op ≡ ok s'
    → apply_op s' op ≢ ok s''
apply_op_once s s' s'' op k gen fits room nonzero takes bump base h again =
    let inside =
      place_all-Moved_taken k gen (length op.ranges) op.ranges
        (record s { ranges = remove_ranges op.remove s.ranges }) fits (omega arith) room nonzero
        takes bump in
    let (r, at, same) = apply_op_fenced s' s'' op again k gen base in
    let moved : Moved k gen s' = rw (apply_op-rewrite s s' op h) (unfold rewrite in inside) in
    let (low, q, at', other) = moved in other (ground (arith, at, at', same))
