-- ===== src/Engine/Order/Best.antt =====
-- topKEntries keeps entries that none of the others ranks before.
use mathlib.Core.List.{reverse_aux}
use super_db.Engine.Order.{
  HeapOps, less, top_k_from, top_k_entries, OrderEntry, order_keys, cut_entries, sorted_keys,
  order_entries,
}
use super_db.Engine.Table.{Table}
use super_db.Engine.Value.{Floats}
use super_db.Engine.Order.Rearrange.{
  Rearranged, same, keep, chain, All, back, All-Rearranged, length-Rearranged, Rearranged-append,
  Rearranged-middle,
}
use super_db.Prelude.{
  ℕ, Text, List, Bool, none, some, true, false, ◌∷◌, [], ◌++◌, ◌≡◌, ◌⊎◌, ◌≤◌, ◌<◌, refl, sym, arith,
  inl, inr, length, ltb, Bool-cases, suc, append-nil,
}
use mathlib.Core.Path.{subst}

-- What container/heap documents, for entries that satisfy `P`, which Less is to order: `IsHeap` is its
-- invariant, under which the first entry is a least one.
pub record Heaps {A : Type 0} (P : A → Type 0) (ops : HeapOps A) (lt : A → A → Bool) : Type 1 where
  pub IsHeap : List A → Type 0
  pub empty : IsHeap []
  pub first :
      (x : A) (xs : List A) → All P (x ∷ xs) → IsHeap (x ∷ xs) → All (λ y. lt y x ≡ false) xs
  pub pushed : (h : List A) (e : A) → P e → All P h → IsHeap h → IsHeap (ops.push lt h e)
  pub push_keeps : (h : List A) (e : A) → Rearranged (ops.push lt h e) (e ∷ h)
  pub popped :
      (x : A) (xs : List A) → All P (x ∷ xs) → IsHeap (x ∷ xs) → IsHeap (ops.pop lt (x ∷ xs))
  pub pop_keeps : (x : A) (xs : List A) → Rearranged (ops.pop lt (x ∷ xs)) xs

-- No entry of the second list ranks before one of the first.
abbrev pub Best : {A : Type 0} → (A → A → Bool) → List A → List A → Type 0
Best before kept rest = All (λ b. All (λ a. before b a ≡ false) kept) rest

-- An order of the entries that satisfy `P`, in which entries may tie
pub record Ranks {A : Type 0} (P : A → Type 0) (before : A → A → Bool) : Type 0 where
  pub asym : (a b : A) → P a → P b → before a b ≡ true → before b a ≡ false
  pub through :
      (a b c : A) → P a → P b → P c → before a b ≡ false → before b c ≡ false → before a c ≡ false

module _ {A : Type 0} (P : A → Type 0) (ops : HeapOps A) (before : A → A → Bool)
    (heaps : Heaps P ops (less ops before)) (ranks : Ranks P before) where
  -- what is kept of `seen`, and what is left
  pub record Kept (k : ℕ) (seen out : List A) : Type 0 where
    pub rest : List A
    pub whole : Rearranged (out ++ rest) seen
    pub best : Best before out rest
    pub most : length out ≤ k
    pub full : (rest ≡ []) ⊎ (length out ≡ k)

  -- an entry that ranks not before the first stays behind the whole heap
  behind :
      (b x : A) (xs : List A)
      → P b
      → P x
      → All P xs
      → before b x ≡ false
      → All (λ y. before x y ≡ false) xs
      → All (λ a. before b a ≡ false) xs
  behind b x [] pb px ps h first = tt
  behind b x (y ∷ xs) pb px (py, ps) h (f, first) =
      (ranks.through b x y pb px py h f, behind b x xs pb px ps h first)

  -- the new entry takes the place of the first
  replaced :
      (e x : A) (xs r : List A)
      → P e
      → P x
      → All P r
      → before e x ≡ true
      → Best before (x ∷ xs) r
      → Best before (e ∷ xs) r
  replaced e x xs [] pe px pr h best = tt
  replaced e x xs (b ∷ r) pe px (pb, pr) h ((bx, bs), best) = (
    (ranks.through b x e pb px pe bx (ranks.asym e x pe px h), bs),
    replaced e x xs r pe px pr h best,
  )

  Best-Rearranged :
      {h h' : List A} (r : List A) → Rearranged h h' → Best before h r → Best before h' r
  Best-Rearranged [] p best = tt
  Best-Rearranged (b ∷ r) p (here, best) =
      (All-Rearranged (λ a. before b a ≡ false) p here, Best-Rearranged r p best)

  -- What the loop ends with from a heap, what was left before, and the entries to come
  abbrev Ends : ℕ → List A → List A → List A → Type 0
  Ends k h es seen =
      (out : List A) × (top_k_from ops before k h es ≡ some out) × Kept k (reverse_aux es seen) out

  -- a state of the loop: the heap, and what was left of the entries seen
  record Looping (k : ℕ) (h r seen : List A) : Type 0 where
    heap : heaps.IsHeap h
    kept : All P h
    left : All P r
    whole : Rearranged (h ++ r) seen
    best : Best before h r
    most : length h ≤ k
    full : (r ≡ []) ⊎ (length h ≡ k)

  push-Looping :
      (k : ℕ) (h r seen : List A) (e : A)
      → P e
      → length h < k
      → Looping k h r seen
      → Looping k (ops.push (less ops before) h e) r (e ∷ seen)
  push-Looping k h r seen e pe room s =
      let q : Rearranged (ops.push (less ops before) h e) (e ∷ h) = heaps.push_keeps h e in
      let none_left : r ≡ [] = elim s.full [
        | inl z ↦ z
        | inr z ↦ absurd (omega (arith, z, room))
      ] in
      record {
        heap = heaps.pushed h e pe s.kept s.heap;
        kept = All-Rearranged P (back q) (pe, s.kept);
        left = s.left;
        whole = chain (Rearranged-append r q) (keep s.whole);
        best =
            subst (λ (l : List A). Best before (ops.push (less ops before) h e) l) (sym none_left)
              tt;
        most = omega (arith, length-Rearranged q, room);
        full = inl none_left;
      }

  replace-Looping :
      (k : ℕ) (x : A) (xs r seen : List A) (e : A)
      → P e
      → before e x ≡ true
      → length (x ∷ xs) ≡ k
      → Looping k (x ∷ xs) r seen
      → Looping k
          (ops.push (less ops before) (ops.pop (less ops before) (x ∷ xs)) e)
          (x ∷ r)
          (e ∷ seen)
  replace-Looping k x xs r seen e pe h size s =
      let q : Rearranged (ops.push (less ops before) (ops.pop (less ops before) (x ∷ xs)) e)
          (e ∷ xs) =
        chain (heaps.push_keeps (ops.pop (less ops before) (x ∷ xs)) e)
          (keep (heaps.pop_keeps x xs)) in
      record {
        heap =
            heaps.pushed (ops.pop (less ops before) (x ∷ xs)) e pe
              (All-Rearranged P (back (heaps.pop_keeps x xs)) s.kept.1)
              (heaps.popped x xs s.kept s.heap);
        kept = All-Rearranged P (back q) (pe, s.kept.1);
        left = (s.kept.0, s.left);
        whole =
            chain (Rearranged-append (x ∷ r) q) (keep (chain (Rearranged-middle xs x r) s.whole));
        best = Best-Rearranged (x ∷ r) (back q) (
          (ranks.asym e x pe s.kept.0 h, heaps.first x xs s.kept s.heap),
          replaced e x xs r pe s.kept.0 s.left h s.best,
        );
        most = omega (arith, length-Rearranged q, size);
        full = inr (omega (arith, length-Rearranged q, size));
      }

  skip-Looping :
      (k : ℕ) (x : A) (xs r seen : List A) (e : A)
      → P e
      → before e x ≡ false
      → length (x ∷ xs) ≡ k
      → Looping k (x ∷ xs) r seen
      → Looping k (x ∷ xs) (e ∷ r) (e ∷ seen)
  skip-Looping k x xs r seen e pe h size s = record {
    heap = s.heap;
    kept = s.kept;
    left = (pe, s.left);
    whole = chain (Rearranged-middle (x ∷ xs) e r) (keep s.whole);
    best = ((h, behind e x xs pe s.kept.0 s.kept.1 h (heaps.first x xs s.kept s.heap)), s.best);
    most = s.most;
    full = inr size;
  }

  top_k_from-Ends :
      (k : ℕ) → 0 < k → (es h r seen : List A) → All P es → Looping k h r seen → Ends k h es seen
  unfolding top_k_from
  top_k_from-Ends k some_room [] h r seen pes s =
      (h, refl, record { rest = r; whole = s.whole; best = s.best; most = s.most; full = s.full })
  top_k_from-Ends k some_room (e ∷ es) [] r seen (pe, pes) s =
      let b : ltb 0 k ≡ true = ground (arith, some_room) in
      let (out, ran, end) =
        top_k_from-Ends k some_room es (ops.push (less ops before) [] e) r (e ∷ seen) pes
          (push-Looping k [] r seen e pe some_room s) in
      (out, rw (top_k_from, b) ran, end)
  top_k_from-Ends k some_room (e ∷ es) (x ∷ xs) r seen (pe, pes) s =
      elim (Bool-cases (ltb (length (x ∷ xs)) k)) [
        | inl b ↦
            let (out, ran, end) =
              top_k_from-Ends k some_room es (ops.push (less ops before) (x ∷ xs) e) r (e ∷ seen)
                pes (push-Looping k (x ∷ xs) r seen e pe (ground (arith, b)) s) in
            (out, rw (top_k_from, b) ran, end)
        | inr b ↦
            let size : length (x ∷ xs) ≡ k = ground (arith, b, s.most) in
            elim (Bool-cases (before e x)) [
              | inl c ↦
                  let (out, ran, end) =
                    top_k_from-Ends k some_room es
                      (ops.push (less ops before) (ops.pop (less ops before) (x ∷ xs)) e) (x ∷ r)
                      (e ∷ seen) pes (replace-Looping k x xs r seen e pe c size s) in
                  (out, rw (top_k_from, b, c) ran, end)
              | inr c ↦
                  let (out, ran, end) =
                    top_k_from-Ends k some_room es (x ∷ xs) (e ∷ r) (e ∷ seen) pes
                      (skip-Looping k x xs r seen e pe c size s) in
                  (out, rw (top_k_from, b, c) ran, end)
            ]
      ]

  reversed : (xs ys : List A) → Rearranged (reverse_aux xs ys) (xs ++ ys)
  reversed [] ys = same
  reversed (x ∷ xs) ys = chain (reversed xs (x ∷ ys)) (Rearranged-middle xs x ys)

  -- With a cap of one or more, topKEntries ends without a panic. What it keeps and what it leaves are
  -- together the entries, no entry that is left ranks before one that is kept, and as many are kept as
  -- the cap allows, if container/heap keeps its promise and rankBefore orders these entries.
  pub top_k_entries-Kept :
      (entries : List A) (k : ℕ)
      → 0 < k
      → All P entries
      → (out : List A) × (top_k_entries ops before entries k ≡ some out) × Kept k entries out
  unfolding top_k_entries
  top_k_entries-Kept entries k some_room all =
      let (out, ran, end) = top_k_from-Ends k some_room entries [] [] [] all (record {
        heap = heaps.empty;
        kept = tt;
        left = tt;
        whole = same;
        best = tt;
        most = omega arith;
        full = inl refl;
      }) in
      let q : Rearranged (reverse_aux entries []) entries =
        subst (λ (l : List A). Rearranged (reverse_aux entries []) l) (append-nil entries)
          (reversed entries []) in
      (
        out,
        ran,
        record {
          rest = end.rest;
          whole = chain end.whole q;
          best = end.best;
          most = end.most;
          full = end.full;
        },
      )

module _ {F : Type 0} ⦃fl : Floats F⦄ where
  -- orderKeys panics on one key or more where its cap is zero.
  pub order_keys_zero :
      (ops : HeapOps (OrderEntry F))
      (sort : (OrderEntry F → OrderEntry F → Bool) → List (OrderEntry F) → List (OrderEntry F))
      (t : Table F) (key : Text) (keys : List Text) (column : Text) (descending : Bool)
      → order_keys ops sort t (key ∷ keys) column descending (some 0) ≡ none
  unfolding order_keys cut_entries sorted_keys order_entries top_k_entries top_k_from
  order_keys_zero ops sort t key keys column descending =
      let some_entry : ltb 0 (suc (length (order_entries t column 1 keys))) ≡ true = ground arith in
      rw some_entry refl
