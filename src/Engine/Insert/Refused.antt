-- ===== src/Engine/Insert/Refused.antt =====
-- A batch that INSERT refuses leaves the table as it was.
use super_db.Engine.Insert.{InsertRow, apply_insert_rows, check_batch, finish, insert_rows}
use super_db.Engine.Outcome.{Context, Failure, Outcome, fail}
use super_db.Engine.Table.{Table, reclaim}
use super_db.Engine.Value.{Floats}
use super_db.Prelude.{
  ℕ, List, Bool, Option, none, some, [], ◌≡◌, refl, arith, length, ltb, if◌then◌else◌,
}

module _ {F : Type 0} ⦃fl : Floats F⦄ where
  finish_refused :
      (t : Table F) (n : ℕ) (o : Option (Table F)) (e : Failure)
      → (finish t n o).1 ≡ fail e
      → (finish t n o).0 ≡ t
  finish_refused t n none e h = refl
  finish_refused t n (some t') e h = absurd (ground (arith, h))

  checked_refused :
      (t : Table F) (n : ℕ) (o : Option (Table F)) (bad : Option Failure) (e : Failure)
      → (elim bad as (λ x. Table F × Outcome) [ some f ↦ (t, fail f) | none ↦ finish t n o ]).1
        ≡ fail e
      → (elim bad as (λ x. Table F × Outcome) [ some f ↦ (t, fail f) | none ↦ finish t n o ]).0 ≡ t
  checked_refused t n o none e h = finish_refused t n o e h
  checked_refused t n o (some f) e h = refl

  pub apply_insert_rows_refused :
      (ctx : Context) (replace : Bool) (t : Table F) (items : List (InsertRow F)) (e : Failure)
      → (apply_insert_rows ctx replace t items).1 ≡ fail e
      → (apply_insert_rows ctx replace t items).0 ≡ t
  unfolding apply_insert_rows
  apply_insert_rows_refused ctx replace t items e h =
      checked_refused t (length items)
        (insert_rows replace (if ltb 0 t.dead then reclaim t else t) items)
        (if replace then none else check_batch ctx t.rows items 0 []) e h
