-- ===== src/Engine/Select/Found.antt =====
-- The rows that a SELECT is to find: those of the scan order that the condition holds for, projected to
-- the columns of the list, without the duplicates where it says DISTINCT.
use super_db.Engine.Outcome.{background, tick}
use super_db.Engine.Select.Rows.{is_zero}
use super_db.Engine.Select.{
  max_int, row_cap, sat_add, Seen, add_line, reached, row_projection_key, selected_values,
}
use super_db.Engine.Select.Page.{cut, take_all}
use super_db.Engine.Select.Scan.{Lines}
use super_db.Engine.Value.{Floats, Row, Value}
use super_db.Prelude.Map.{Map, get, has, put}
use super_db.Prelude.{
  ℕ, Text, List, Bool, Option, none, some, true, false, ◌∷◌, [], ◌++◌, ◌≡◌, ◌≤◌, ◌⊎◌, refl, ap, ◌∙◌,
  sym, arith, length, take, Bool-cases, Option-cases, inl, inr, append_assoc, text_instance,
  if◌then◌else◌, length-append, take-append_length,
}

module _ {F : Type 0} ⦃fl : Floats F⦄ where
  unfoldable pub found_lines : (Row F → Bool) → List Text → Map Text (Row F) → List Text → Lines F
  found_lines test names rows [] = []
  found_lines test names rows (key ∷ order) = elim (get rows key) [
    | none ↦ found_lines test names rows order
    | some row ↦
        if test row
        then selected_values row names ∷ found_lines test names rows order
        else found_lines test names rows order
  ]

  -- the first line of each key, but for the keys in `seen`
  unfoldable pub distinct_lines : Bool → Seen → Lines F → Lines F
  distinct_lines false seen lines = lines
  distinct_lines true seen [] = []
  distinct_lines true seen (line ∷ lines) =
      if has seen (row_projection_key line)
      then distinct_lines true seen lines
      else line ∷ distinct_lines true (put seen (row_projection_key line) tt) lines

  pub length-found_lines :
      (test : Row F → Bool) (names : List Text) (rows : Map Text (Row F)) (order : List Text)
      → length (found_lines test names rows order) ≤ length order
  unfolding found_lines
  length-found_lines test names rows [] = omega arith
  length-found_lines test names rows (key ∷ order) =
      ground (arith, length-found_lines test names rows order)

  pub length-distinct_lines :
      (distinct : Bool) (seen : Seen) (lines : Lines F)
      → length (distinct_lines distinct seen lines) ≤ length lines
  unfolding distinct_lines
  length-distinct_lines false seen lines = omega arith
  length-distinct_lines true seen [] = omega arith
  length-distinct_lines true seen (line ∷ lines) = ground (
    arith,
    length-distinct_lines true seen lines,
    length-distinct_lines true (put seen (row_projection_key line) tt) lines,
  )

  pub found_none :
      (test : Row F → Bool) (names : List Text) (rows : Map Text (Row F)) (distinct : Bool)
      (seen : Seen)
      → distinct_lines distinct seen (found_lines test names rows []) ≡ []
  unfolding found_lines distinct_lines
  found_none test names rows false seen = refl
  found_none test names rows true seen = refl

  pub found_gone :
      (test : Row F → Bool) (names : List Text) (rows : Map Text (Row F)) (key : Text)
      (order : List Text)
      → get rows key ≡ none
      → found_lines test names rows (key ∷ order) ≡ found_lines test names rows order
  unfolding found_lines
  found_gone test names rows key order e = rw (found_lines, e) refl

  pub found_skipped :
      (test : Row F → Bool) (names : List Text) (rows : Map Text (Row F)) (key : Text)
      (order : List Text) (row : Row F)
      → get rows key ≡ some row
      → test row ≡ false
      → found_lines test names rows (key ∷ order) ≡ found_lines test names rows order
  unfolding found_lines
  found_skipped test names rows key order row e h = rw (found_lines, e, h) refl

  pub found_there :
      (test : Row F → Bool) (names : List Text) (rows : Map Text (Row F)) (key : Text)
      (order : List Text) (row : Row F)
      → get rows key ≡ some row
      → test row ≡ true
      → found_lines test names rows (key ∷ order)
        ≡ selected_values row names ∷ found_lines test names rows order
  unfolding found_lines
  found_there test names rows key order row e h = rw (found_lines, e, h) refl

  -- A line that is there already, or one that is new and counts as seen from then on
  abbrev pub Repeated : Bool → Seen → List (Value F) → Type 0
  Repeated distinct seen line =
      ((acc : Lines F) → add_line distinct seen acc line ≡ (seen, acc))
      × ((lines : Lines F)
          → distinct_lines distinct seen (line ∷ lines) ≡ distinct_lines distinct seen lines)

  abbrev pub New : Bool → Seen → List (Value F) → Type 0
  New distinct seen line =
      (after : Seen) × ((acc : Lines F)
        → add_line distinct seen acc line ≡ (after, acc ++ (line ∷ [])))
      × ((lines : Lines F)
          → distinct_lines distinct seen (line ∷ lines)
            ≡ line ∷ distinct_lines distinct after lines)

  pub add_line-cases :
      (distinct : Bool) (seen : Seen) (line : List (Value F))
      → Repeated distinct seen line ⊎ New distinct seen line
  unfolding add_line distinct_lines
  add_line-cases false seen line = inr (seen, (λ acc. refl), (λ lines. refl))
  add_line-cases true seen line = elim (Bool-cases (has seen (row_projection_key line))) [
    | inl b ↦ inl ((λ acc. rw b refl), (λ lines. rw b refl))
    | inr b ↦ inr (put seen (row_projection_key line) tt, (λ acc. rw b refl), (λ lines. rw b refl))
  ]

-- A scan that is never cancelled
pub tick-background : (n : ℕ) → (tick background n).1 ≡ false
unfolding tick
tick-background n = ground arith

module _ {A : Type 0} (most : Option ℕ) where
  -- A scan that has room has not cut anything, and one that has none left has cut the rest.
  pub cut_room : (xs : List A) → reached most (length xs) ≡ false → cut most xs ≡ xs
  unfolding reached
  cut_room xs h = elim (Option-cases most) [
    | inl e ↦ rw e refl
    | inr (c, e) ↦ let small : length xs ≤ c = ground (arith, e, h) in rw e (take_all c xs small)
  ]

  cut_exact : (c : ℕ) (xs ys : List A) → c ≡ length xs → take c (xs ++ ys) ≡ xs
  cut_exact c xs ys e = rw e (take-append_length xs ys)

  pub cut_full :
      (xs ys : List A) (x : A)
      → reached most (length xs) ≡ false
      → reached most (length (xs ++ (x ∷ []))) ≡ true
      → cut most (xs ++ (x ∷ ys)) ≡ xs ++ (x ∷ [])
  unfolding reached
  cut_full xs ys x h g = elim (Option-cases most) [
    | inl e ↦ absurd (ground (arith, e, g))
    | inr (c, e) ↦
        let size : c ≡ length (xs ++ (x ∷ [])) =
          ground (arith, e, h, g, length-append xs (x ∷ [])) in
        rw e
          (ap (take c) (sym (append_assoc xs (x ∷ []) ys)) ∙ cut_exact c (xs ++ (x ∷ [])) ys size)
  ]

-- A scan starts with room, unless the limit is zero.
pub row_cap_room :
    (limit : Option ℕ) (o m : ℕ)
    → o ≤ max_int
    → is_zero limit ≡ false
    → reached (row_cap limit o m) 0 ≡ false
unfolding reached row_cap sat_add is_zero
row_cap_room none o m fits h = ground arith
row_cap_room (some n) o m fits h = ground (arith, h, fits)
