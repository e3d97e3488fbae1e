-- ===== src/Engine/Select/Scan.antt =====
-- internal/engine/select.go: the loops of a SELECT over the fast array, an index bucket and the order.
use mathlib.Core.Option
use super_db.Engine.Condition.{value_equal}
use super_db.Engine.Index.{Keys}
use super_db.Engine.Outcome.{Context, tick}
use super_db.Engine.Select.{
  Seen, add_line, reached, row_projection_key, selected_fast_values, selected_values,
}
use super_db.Engine.Select.Term.{FastTerm, match_fast_term}
use super_db.Engine.Table.{Table, FastRow}
use super_db.Engine.Value.{Floats, Value, Row, cell}
use super_db.Prelude.Map.{Map, get, has, put}
use super_db.Prelude.{
  ◌≡◌, ◌⊎◌, refl, inl, inr, ℕ, Text, List, Bool, Option, none, some, true, false, ◌∷◌, [], ◌++◌,
  if◌then◌else◌, length, text_eq, text_instance, get_elem?,
}

-- The errors of a SELECT from the lock on: the context's, those of its clauses, a column that ORDER BY or
-- the list names and the table or GROUP BY lacks, a sum of what is no number, and ErrResultTooLarge.
pub data SelectError : Type 0 where
  cancelled invalid_where invalid_having invalid_select_list invalid_aggregate unsupported_aggregate
        too_large :
      SelectError
  no_order_column no_column not_grouped not_numeric : Text → SelectError

-- What a SELECT gives; `panicked` is an index out of range.
pub data Answer {ℓ} (A : Type ℓ) : Type ℓ where
  answer : A → Answer A
  failed : SelectError → Answer A
  panicked : Answer A

module _ {ℓ κ} {A : Type ℓ} {B : Type κ} where
  infixl 1 ◌>>=◌
  abbrev pub ◌>>=◌ : Answer A → (A → Answer B) → Answer B
  answer a >>= f = f a
  failed e >>= f = failed e
  panicked >>= f = panicked

abbrev pub in_range {ℓ} : {A : Type ℓ} → Option A → Answer A
in_range none = panicked
in_range (some a) = answer a

abbrev pub Lines : Type 0 → Type 0
Lines F = List (List (Value F))

pub Answer-cases :
    {A : Type 0} (a : Answer A)
    → ((x : A) × (a ≡ answer x)) ⊎ (((e : SelectError) × (a ≡ failed e)) ⊎ (a ≡ panicked))
Answer-cases (answer x) = inl (x, refl)
Answer-cases (failed e) = inr (inl (e, refl))
Answer-cases panicked = inr (inr refl)

module _ {F : Type 0} ⦃fl : Floats F⦄ where
  -- The loops over the fast array, which differ in their `test`.
  unfoldable pub fast_scan :
      Context
      → (List (Value F) → Option Bool)
      → List Text
      → Map Text ℕ
      → Bool
      → Option ℕ
      → List (FastRow F)
      → ℕ
      → Seen
      → Lines F
      → Answer (Lines F)
  fast_scan ctx test names columns distinct most [] n seen rows = answer rows
  fast_scan ctx test names columns distinct most (r ∷ fast) n seen rows = elim (tick ctx n).1 [
    | true ↦ failed cancelled
    | false ↦ elim (text_eq r.key []) [
      | true ↦ fast_scan ctx test names columns distinct most fast (tick ctx n).0 seen rows
      | false ↦ elim (test r.values) [
        | none ↦ panicked
        | some false ↦ fast_scan ctx test names columns distinct most fast (tick ctx n).0 seen rows
        | some true ↦
            let next = add_line distinct seen rows (selected_fast_values r.values names columns) in
            elim (reached most (length next.1)) [
              | true ↦ answer next.1
              | false ↦
                  fast_scan ctx test names columns distinct most fast (tick ctx n).0 next.0 next.1
            ]
      ]
    ]
  ]

  -- `t.fast[fi]` where the key has a position in range and a row that is not deleted
  unfoldable pub fast_at : Table F → Text → Option (FastRow F)
  fast_at t key = elim (get t.fast_pos key) [
    | none ↦ none
    | some i ↦ elim (get_elem? t.fast i) [
      | none ↦ none
      | some r ↦ if text_eq r.key [] then none else some r
    ]
  ]

  -- `projectedKey`
  unfoldable pub projected_key : Table F → List Text → Text → Option Text
  unfolding fast_at
  projected_key t names key = elim (fast_at t key) [
    | none ↦
        Option.map (λ (row : Row F). row_projection_key (selected_values row names))
          (get t.rows key)
    | some r ↦ some (row_projection_key (selected_fast_values r.values names t.positions))
  ]

  -- `dedupKey`: what is seen after it, and whether the key is a duplicate
  unfoldable pub dedup_key : Bool → Table F → List Text → Seen → Text → Seen × Bool
  unfolding projected_key
  dedup_key false t names seen key = (seen, false)
  dedup_key true t names seen key = elim (projected_key t names key) [
    | none ↦ (seen, false)
    | some k ↦ if has seen k then (seen, true) else (put seen k tt, false)
  ]

  -- The loop over t.Order: the keys it collects and the ticks it took. `cap` is -1 with an ORDER BY.
  unfoldable pub order_scan :
      Context
      → (Row F → Bool)
      → Table F
      → List Text
      → Bool
      → Option ℕ
      → List Text
      → ℕ
      → Seen
      → List Text
      → Answer (List Text × ℕ)
  order_scan ctx test t names distinct most [] n seen keys = answer (keys, n)
  order_scan ctx test t names distinct most (key ∷ order) n seen keys =
      let n' = (tick ctx n).0 in
      elim (tick ctx n).1 [
        | true ↦ failed cancelled
        | false ↦ elim (get t.rows key) [
          | none ↦ order_scan ctx test t names distinct most order n' seen keys
          | some row ↦ elim (test row) [
            | false ↦ order_scan ctx test t names distinct most order n' seen keys
            | true ↦
                let next = dedup_key distinct t names seen key in
                elim next.1 [
                  | true ↦ order_scan ctx test t names distinct most order n' next.0 keys
                  | false ↦ elim (reached most (length (keys ++ (key ∷ [])))) [
                    | true ↦ answer (keys ++ (key ∷ []), n')
                    | false ↦
                        order_scan ctx test t names distinct most order n' next.0
                          (keys ++ (key ∷ []))
                  ]
                ]
          ]
        ]
      ]

  -- the row map's part in the verification of a candidate
  unfoldable pub row_holds : Table F → Text → FastTerm F → Text → Answer Bool
  row_holds t column term key = elim (get t.rows key) [
    | none ↦ answer false
    | some row ↦ answer (value_equal (cell row column) term.expected)
  ]

  -- How the loops over an index bucket verify a candidate: by the term, or by the compiled condition.
  unfoldable pub term_holds : Table F → Text → FastTerm F → Text → Answer Bool
  unfolding row_holds
  term_holds t column term key = elim (get t.fast_pos key) [
    | none ↦ row_holds t column term key
    | some i ↦ elim (get_elem? t.fast i) [
      | none ↦ panicked
      | some r ↦
          if text_eq r.key []
          then row_holds t column term key
          else in_range (match_fast_term r.values term)
    ]
  ]

  unfoldable pub row_matches : Table F → (Row F → Bool) → Text → Answer Bool
  row_matches t test key = elim (get t.rows key) [
    | none ↦ answer false
    | some row ↦ answer (test row)
  ]

  -- The loops over t.Indexes[column][value], which differ in how they verify a candidate
  unfoldable pub index_scan :
      Context
      → (Text → Answer Bool)
      → Table F
      → List Text
      → Bool
      → Option ℕ
      → Keys
      → ℕ
      → Seen
      → List Text
      → Answer (List Text × ℕ)
  index_scan ctx test t names distinct most [] n seen keys = answer (keys, n)
  index_scan ctx test t names distinct most ((key, _) ∷ bucket) n seen keys =
      let n' = (tick ctx n).0 in
      elim (tick ctx n).1 [
        | true ↦ failed cancelled
        | false ↦ elim (reached most (length keys)) [
          | true ↦ answer (keys, n')
          | false ↦ elim (test key) [
            | failed e ↦ failed e
            | panicked ↦ panicked
            | answer false ↦ index_scan ctx test t names distinct most bucket n' seen keys
            | answer true ↦
                let next = dedup_key distinct t names seen key in
                elim next.1 [
                  | true ↦ index_scan ctx test t names distinct most bucket n' next.0 keys
                  | false ↦
                      index_scan ctx test t names distinct most bucket n' next.0
                        (keys ++ (key ∷ []))
                ]
          ]
        ]
      ]
