-- ===== src/Engine/Order/Ranked.antt =====
-- rankBefore orders entries whose values valueLess orders, such as the integers of a column.
use super_db.Engine.Order.{HeapOps, OrderEntry, less, rank_before, top_k_entries}
use super_db.Engine.Order.Best.{Heaps, Kept, Ranks, top_k_entries-Kept}
use super_db.Engine.Order.Rearrange.{All}
use super_db.Engine.Value.{Floats, value_less, int_less, int}
use super_db.Prelude.Decimal.{ℤ, pos, negsuc}
use super_db.Prelude.{ℕ, List, Bool, true, false, some, ◌≡◌, ◌<◌, arith}

int_less-asym : (a b : ℤ) → int_less a b ≡ true → int_less b a ≡ false
unfolding int_less
int_less-asym (pos a) (pos b) h = ground (arith, h)
int_less-asym (pos a) (negsuc b) h = ground (arith, h)
int_less-asym (negsuc a) (pos b) h = ground (arith, h)
int_less-asym (negsuc a) (negsuc b) h = ground (arith, h)

int_less-through : (a b c : ℤ) → int_less a b ≡ false → int_less b c ≡ false → int_less a c ≡ false
unfolding int_less
int_less-through (pos a) (pos b) (pos c) h k = ground (arith, h, k)
int_less-through (pos a) (pos b) (negsuc c) h k = ground (arith, h, k)
int_less-through (pos a) (negsuc b) (pos c) h k = ground (arith, h, k)
int_less-through (pos a) (negsuc b) (negsuc c) h k = ground (arith, h, k)
int_less-through (negsuc a) (pos b) c h k = ground (arith, h, k)
int_less-through (negsuc a) (negsuc b) (pos c) h k = ground (arith, h, k)
int_less-through (negsuc a) (negsuc b) (negsuc c) h k = ground (arith, h, k)

-- an entry with an INT
abbrev pub IsInt : {F : Type 0} → OrderEntry F → Type 0
IsInt {F} e = (z : ℤ) × (e.val ≡ int z)

module _ {F : Type 0} ⦃fl : Floats F⦄ (descending : Bool) where
  rank_before-asym :
      (a b : OrderEntry F)
      → IsInt a
      → IsInt b
      → rank_before descending a b ≡ true
      → rank_before descending b a ≡ false
  unfolding rank_before value_less
  rank_before-asym a b (y, ey) (z, ez) h =
      ground (arith, h, ey, ez, int_less-asym y z, int_less-asym z y)

  rank_before-through :
      (a b c : OrderEntry F)
      → IsInt a
      → IsInt b
      → IsInt c
      → rank_before descending a b ≡ false
      → rank_before descending b c ≡ false
      → rank_before descending a c ≡ false
  unfolding rank_before value_less
  rank_before-through a b c (x, ex) (y, ey) (z, ez) h k = ground (
    arith,
    h,
    k,
    ex,
    ey,
    ez,
    int_less-asym x y,
    int_less-asym y z,
    int_less-asym x z,
    int_less-through x y z,
    int_less-through z y x,
    int_less-through y x z,
    int_less-through x z y,
    int_less-through z x y,
    int_less-through y z x,
  )

  pub rank_before-Ranks : Ranks (IsInt {F = F}) (rank_before descending)
  rank_before-Ranks = record { asym = rank_before-asym; through = rank_before-through }

  -- On a column of integers and with a cap of one or more, topKEntries ends without a panic. What it keeps
  -- and what it leaves are together the entries, no entry that is left ranks before one that is kept, and
  -- as many are kept as the cap allows, if container/heap keeps its promise.
  pub top_k_entries-ranked :
      (ops : HeapOps (OrderEntry F)) (heaps : Heaps IsInt ops (less ops (rank_before descending)))
      (entries : List (OrderEntry F)) (k : ℕ)
      → 0 < k
      → All IsInt entries
      → (out : List (OrderEntry F)) × (top_k_entries ops (rank_before descending) entries k
          ≡ some out)
        × Kept IsInt ops (rank_before descending) heaps rank_before-Ranks k entries out
  top_k_entries-ranked ops heaps entries k some_room ints =
      top_k_entries-Kept IsInt ops (rank_before descending) heaps rank_before-Ranks entries k
        some_room ints
