-- ===== src/Engine/Select/Dedup.antt =====
-- internal/engine/select.go: how the collection of keys for DISTINCT tells a line that is there already.
use super_db.Engine.Select.{Seen, row_projection_key, selected_values}
use super_db.Engine.Select.Found.{distinct_lines}
use super_db.Engine.Select.Rows.{row_line}
use super_db.Engine.Select.Scan.{Lines, dedup_key, fast_at, projected_key}
use super_db.Engine.Table.{Table}
use super_db.Engine.Value.{Floats, Row, Value}
use super_db.Prelude.Map.{get, has, put}
use super_db.Prelude.{
  ℕ, Text, List, Bool, none, some, true, false, ◌∷◌, [], ◌++◌, ◌≡◌, ◌⊎◌, refl, ap, length, map,
  take, zero, suc, Bool-cases, Option-cases, inl, inr, text_instance,
}

module _ {A B : Type 0} (f : A → B) where
  pub length-map : (xs : List A) → length (map f xs) ≡ length xs
  length-map [] = refl
  length-map (x ∷ xs) = ap suc (length-map xs)

  pub map-append_one : (xs : List A) (x : A) → map f (xs ++ (x ∷ [])) ≡ map f xs ++ (f x ∷ [])
  map-append_one [] x = refl
  map-append_one (y ∷ xs) x = ap (◌∷◌ (f y)) (map-append_one xs x)

  pub map-take : (n : ℕ) (xs : List A) → map f (take n xs) ≡ take n (map f xs)
  map-take zero xs = refl
  map-take (suc n) [] = refl
  map-take (suc n) (x ∷ xs) = ap (◌∷◌ (f x)) (map-take n xs)

pub take-take : {A : Type 0} (n : ℕ) (xs : List A) → take n (take n xs) ≡ take n xs
take-take zero xs = refl
take-take (suc n) [] = refl
take-take (suc n) (x ∷ xs) = ap (◌∷◌ x) (take-take n xs)

module _ {F : Type 0} ⦃fl : Floats F⦄ (t : Table F) (no_fast : t.fast ≡ [])
    (names : List Text) where
  abbrev pub line : Text → List (Value F)
  line = row_line t names

  pub line-there :
      (key : Text) (row : Row F) → get t.rows key ≡ some row → line key ≡ selected_values row names
  unfolding row_line
  line-there key row e = rw e refl

  fast_at-none : (key : Text) → fast_at t key ≡ none
  unfolding fast_at
  fast_at-none key = elim (Option-cases (get t.fast_pos key)) [
    | inl e ↦ rw (fast_at, e) refl
    | inr (i, e) ↦ rw (fast_at, e, no_fast) refl
  ]

  pub projected_key-there :
      (key : Text) (row : Row F)
      → get t.rows key ≡ some row
      → projected_key t names key ≡ some (row_projection_key (selected_values row names))
  unfolding projected_key
  projected_key-there key row e = rw (projected_key, fast_at-none key, e) refl

  -- A key whose line is there already, or one whose line is new
  abbrev pub Repeats : Bool → Seen → Text → List (Value F) → Type 0
  Repeats distinct seen key l =
      ((dedup_key distinct t names seen key ≡ (seen, true))
        × ((ls : Lines F)
            → distinct_lines distinct seen (l ∷ ls) ≡ distinct_lines distinct seen ls))
      ⊎ ((after : Seen) × (dedup_key distinct t names seen key ≡ (after, false))
          × ((ls : Lines F)
              → distinct_lines distinct seen (l ∷ ls) ≡ l ∷ distinct_lines distinct after ls))

  pub dedup_key-cases :
      (distinct : Bool) (seen : Seen) (key : Text) (row : Row F)
      → get t.rows key ≡ some row
      → Repeats distinct seen key (selected_values row names)
  unfolding dedup_key distinct_lines
  dedup_key-cases false seen key row e = inr (seen, refl, λ ls. refl)
  dedup_key-cases true seen key row e =
      let k = row_projection_key (selected_values row names) in
      elim (Bool-cases (has seen k)) [
        | inl b ↦ inl (rw (dedup_key, projected_key-there key row e, b) refl, λ ls. rw b refl)
        | inr b ↦
            inr (
              put seen k tt,
              rw (dedup_key, projected_key-there key row e, b) refl,
              λ ls. rw b refl,
            )
      ]
