-- ===== src/Tests/Orders.antt =====
-- Entries of integers in a heap that is kept sorted, and a table that is ordered.
use super_db.Engine.Order.{HeapOps, OrderEntry, less, rank_before, top_k_entries}
use super_db.Engine.Order.Best.{Heaps, Kept, Ranks}
use super_db.Engine.Order.Ranked.{IsInt, rank_before-Ranks, top_k_entries-ranked}
use super_db.Engine.Order.Rearrange.{All, Rearranged, same, keep, exchange, chain}
use super_db.Engine.Value.{int}
use super_db.Prelude.Decimal.{pos}
use super_db.Prelude.{
  ℕ, List, Bool, false, codes, some, ◌∷◌, [], ◌≡◌, refl, arith, drop, if◌then◌else◌, Bool-cases,
  inl, inr,
}
use super_db.Tests.Data.{whole_floats}

unfoldable pub insert : {A : Type 0} → (A → A → Bool) → List A → A → List A
insert lt [] e = e ∷ []
insert lt (x ∷ h) e = if lt e x then e ∷ x ∷ h else x ∷ insert lt h e

abbrev pub sorting : {A : Type 0} → HeapOps A
sorting = record { push = insert; pop = λ lt h. drop 1 h }

insert-Rearranged :
    {A : Type 0} (lt : A → A → Bool) (h : List A) (e : A) → Rearranged (insert lt h e) (e ∷ h)
unfolding insert
insert-Rearranged lt [] e = same
insert-Rearranged lt (x ∷ h) e = elim (Bool-cases (lt e x)) [
  | inl b ↦ rw b same
  | inr b ↦ rw b (chain (keep (insert-Rearranged lt h e)) exchange)
]

module _ {A : Type 0} (P : A → Type 0) (before : A → A → Bool) (ranks : Ranks P before) where
  abbrev last_first : A → A → Bool
  last_first = less sorting before

  abbrev IsSorted : List A → Type 0
  IsSorted [] = Unit
  IsSorted (x ∷ xs) = All (λ y. last_first y x ≡ false) xs × IsSorted xs

  All-insert :
      (x : A) (h : List A) (e : A)
      → last_first e x ≡ false
      → All (λ y. last_first y x ≡ false) h
      → All (λ y. last_first y x ≡ false) (insert last_first h e)
  unfolding insert
  All-insert x [] e here a = (here, tt)
  All-insert x (y ∷ h) e here (f, a) = elim (Bool-cases (last_first e y)) [
    | inl b ↦ rw b (here, (f, a))
    | inr b ↦ rw b (f, All-insert x h e here a)
  ]

  All-below :
      (x e : A) (h : List A)
      → P x
      → P e
      → All P h
      → last_first x e ≡ false
      → All (λ y. last_first y x ≡ false) h
      → All (λ y. last_first y e ≡ false) h
  All-below x e [] px pe ps b a = tt
  All-below x e (y ∷ h) px pe (py, ps) b (f, a) =
      (ranks.through e x y pe px py b f, All-below x e h px pe ps b a)

  insert-IsSorted :
      (h : List A) (e : A) → P e → All P h → IsSorted h → IsSorted (insert last_first h e)
  unfolding insert
  insert-IsSorted [] e pe ps s = (tt, tt)
  insert-IsSorted (x ∷ h) e pe (px, ps) (a, s) = elim (Bool-cases (last_first e x)) [
    | inl b ↦
        let over : last_first x e ≡ false = ranks.asym x e px pe b in
        rw b ((over, All-below x e h px pe ps over a), (a, s))
    | inr b ↦ rw b (All-insert x h e b a, insert-IsSorted h e pe ps s)
  ]

  sorted_heaps : Heaps P sorting last_first
  sorted_heaps = record {
    IsHeap = IsSorted;
    empty = tt;
    first = λ x xs p s. s.0;
    pushed = insert-IsSorted;
    push_keeps = insert-Rearranged last_first;
    popped = λ x xs p s. s.1;
    pop_keeps = λ x xs. same;
  }

abbrev numbered : ℕ → ℕ → OrderEntry ℕ
numbered n seq = record { key = codes "k"; val = int (pos n); seq = seq }

abbrev numbers : List (OrderEntry ℕ)
numbers = numbered 5 0 ∷ numbered 2 1 ∷ numbered 9 2 ∷ numbered 2 3 ∷ []

numbers-IsInt : All IsInt numbers
numbers-IsInt = ((pos 5, refl), ((pos 2, refl), ((pos 9, refl), ((pos 2, refl), tt))))

top_k_entries-ranked_example :
    (out : List (OrderEntry ℕ)) × (top_k_entries sorting (rank_before false) numbers 2 ≡ some out)
    × Kept IsInt sorting
        (rank_before false)
        (sorted_heaps IsInt (rank_before false) (rank_before-Ranks false))
        (rank_before-Ranks false)
        2
        numbers
        out
top_k_entries-ranked_example =
    top_k_entries-ranked false sorting
      (sorted_heaps IsInt (rank_before false) (rank_before-Ranks false)) numbers 2 (omega arith)
      numbers-IsInt
