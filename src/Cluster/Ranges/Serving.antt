-- ===== src/Cluster/Ranges/Serving.antt =====
-- Which range serves a table, whatever order the directory's map is ranged over in.
use super_db.Cluster.Ranges.Ids.{IsNumbered}
use super_db.Prelude.Unique.{Unique}
use super_db.Prelude.Map.{Map, get, get_or}
use super_db.Prelude.{
  [], ◌∷◌, refl, ℕ, Text, nat_eq, text_instance, none, some, ◌≡◌, inl, ◌≤◌, ◌⊎◌, arith, inr,
  Bool-cases, ltb,
}
use super_db.Cluster.Ranges.{RangeStore, Range, table_range, lowest, fallback_range}

-- `r` is in a map of ranges, and none has a lower id.
abbrev IsLeast : Map ℕ Range → Range → Type 0
IsLeast m r =
    ((k : ℕ) × (get m k ≡ some r)) × ((k : ℕ) (q : Range) → get m k ≡ some q → r.id ≤ q.id)

lowest-some :
    (m : Map ℕ Range) (b : Range)
    → Unique m
    → (r : Range) × (lowest m (some b) ≡ some r)
      × (r.id ≤ b.id)
      × ((k : ℕ) (q : Range) → get m k ≡ some q → r.id ≤ q.id)
      × ((r ≡ b) ⊎ ((k : ℕ) × (get m k ≡ some r)))
unfolding lowest get
lowest-some [] b u = (b, refl, omega arith, (λ k q g. cc), inl refl)
lowest-some ((j, x) ∷ m) b (new, u) = elim (Bool-cases (ltb x.id b.id)) [
  | inl e ↦
      let (r, found, low, least, at) = lowest-some m x u in
      (
        r,
        rw e found,
        ground (arith, e, low),
        (λ k q g. ground (arith, g, least k q, low)),
        inr (elim at [
          | inl same ↦ (j, ground (arith, same))
          | inr (k, g) ↦ (k, ground (arith, new, g))
        ]),
      )
  | inr e ↦
      let (r, found, low, least, at) = lowest-some m b u in
      (
        r,
        rw e found,
        low,
        (λ k q g. ground (arith, e, g, least k q, low)),
        elim at [ inl same ↦ inl same | inr (k, g) ↦ inr (k, ground (arith, new, g)) ],
      )
]

lowest-IsLeast :
    (m : Map ℕ Range)
    → Unique m
    → (lowest m none ≡ none × ((k : ℕ) → get m k ≡ none))
      ⊎ ((r : Range) × (lowest m none ≡ some r) × IsLeast m r)
unfolding lowest get
lowest-IsLeast [] u = inl (refl, λ k. refl)
lowest-IsLeast ((j, x) ∷ m) (new, u) =
    let (r, found, low, least, at) = lowest-some m x u in
    inr (
      r,
      found,
      (
        elim at [ inl same ↦ (j, ground (arith, same)) | inr (k, g) ↦ (k, ground (arith, new, g)) ],
        (λ k q g. ground (arith, g, least k q, low)),
      ),
    )

table_range_fallback :
    (s : RangeStore) (table : Text)
    → get s.assign table ≡ none
    → table_range s table ≡ fallback_range s
unfolding table_range
table_range_fallback s table a = rw (table_range, a) refl

-- A table without an assignment, in a directory that has each id once and is not empty, is served by a range of the
-- directory that has the lowest id.
pub table_range_unassigned :
    (s : RangeStore) (table : Text) (k : ℕ) (q : Range)
    → Unique s.ranges
    → get s.assign table ≡ none
    → get s.ranges k ≡ some q
    → ((j : ℕ) × (get s.ranges j ≡ some (table_range s table))) × ((table_range s table).id ≤ q.id)
unfolding fallback_range
table_range_unassigned s table k q u a g = elim (lowest-IsLeast s.ranges u) [
  | inl (e, empty) ↦ ground (arith, empty k, g)
  | inr (r, e, at) ↦ rw (table_range_fallback s table a, e) (at.0, at.1 k q g)
]

fallback_range_same :
    (s t : RangeStore)
    → Unique s.ranges
    → Unique t.ranges
    → IsNumbered s
    → ((k : ℕ) → get s.ranges k ≡ get t.ranges k)
    → fallback_range s ≡ fallback_range t
unfolding fallback_range
fallback_range_same s t us ut ids same = elim (lowest-IsLeast s.ranges us) [
  | inl (e, none_s) ↦ elim (lowest-IsLeast t.ranges ut) [
    | inl (e', none_t) ↦ rw (e, e') refl
    | inr (r, e', ((k, at), least)) ↦ ground (arith, none_s k, same k, at)
  ]
  | inr (r, e, ((k, at), least)) ↦ elim (lowest-IsLeast t.ranges ut) [
    | inl (e', none_t) ↦ ground (arith, none_t k, same k, at)
    | inr (r', e', ((k', at'), least')) ↦
        rw (e, e')
          (ground (
            arith,
            at,
            at',
            same k,
            same k',
            ids k r at,
            ids k' r' (ground (arith, same k', at')),
            least k' r' (ground (arith, same k', at')),
            least' k r (ground (arith, same k, at)),
          ))
  ]
]

-- Two members whose directories and assignments hold the same entries, each range under its own id and
-- each id once, serve a table from the same
-- range, whatever the order of their maps.
pub table_range_same :
    (s t : RangeStore) (table : Text)
    → Unique s.ranges
    → Unique t.ranges
    → IsNumbered s
    → ((k : ℕ) → get s.ranges k ≡ get t.ranges k)
    → ((name : Text) → get s.assign name ≡ get t.assign name)
    → table_range s table ≡ table_range t table
unfolding table_range
table_range_same s t table us ut ids same assigned = ground (
  arith,
  assigned table,
  fallback_range_same s t us ut ids same,
  same (get_or (get s.assign table) 0),
)
