-- ===== src/Engine/Aggregate/Rebuilt.antt =====
-- An aggregate over the fast array is the aggregate over the rows.
use super_db.Engine.Aggregate.{
  AggregateCall, AggregateState, aggregate_fast, aggregate_plain, meet, value_in,
}
use super_db.Engine.Condition.{CompiledCondition, matches_fast, matches_map}
use super_db.Engine.Condition.Fast.{matches_fast-matches_map, position}
use super_db.Engine.Condition.Parse.{compile_condition}
use super_db.Engine.Group.{Sums}
use super_db.Engine.Outcome.{background, tick}
use super_db.Engine.Select.Fast.{
  fresh, fresh_gone, fresh_there, rebuild_rows-fresh, shown_gone, shown_there, shown_unkeyed,
}
use super_db.Engine.Select.Found.{tick-background}
use super_db.Engine.Select.Scan.{Answer-cases, Answer, answer, in_range}
use super_db.Engine.Table.{
  FastRow, Table, fast_path_threshold, number_columns, rebuild_fast_path, values_of,
}
use super_db.Engine.Value.{Column, Floats, Row, Value, cell, has_column}
use super_db.Prelude.Map.{Map, get, remove}
use super_db.Prelude.{
  ℕ, Text, List, Bool, Option, none, some, true, false, ◌∷◌, [], ◌≡◌, refl, ap, ◌∙◌, arith, length,
  ltb, Bool-cases, Option-cases, inl, inr, text_eq, text_instance, ◌||◌,
}

module _ {F : Type 0} ⦃fl : Floats F⦄ (sums : Sums F) (test : List (Value F) → Option Bool)
    (holds : Row F → Bool) (call : AggregateCall) (cols : List Column) (index : Option ℕ)
    (rows : Map Text (Row F))
    (same_test : (row : Row F) → test (values_of cols row) ≡ some (holds row))
    (same_meet : (row : Row F) (st : AggregateState F)
      → meet sums call (value_in sums (values_of cols row) index) st
        ≡ meet sums call (answer (cell row call.column)) st) where
  abbrev shown : Map Text (Row F)
  shown = remove rows []

  abbrev over_fast : List (FastRow F) → ℕ → AggregateState F → Answer (AggregateState F)
  over_fast fast n st = aggregate_fast sums background test call index fast n st

  abbrev over_rows : List Text → ℕ → AggregateState F → Answer (AggregateState F)
  over_rows order n st = aggregate_plain sums background holds call shown order n st

  abbrev Same : List Text → Type 0
  Same order =
      (n m : ℕ) (st : AggregateState F)
      → over_fast (fresh cols rows order) n st ≡ over_rows order m st

  abbrev at_key : Text → Row F → FastRow F
  at_key key row = record { key = key; values = values_of cols row }

  over_gone :
      (key : Text) (order : List Text) → get rows key ≡ none → Same order → Same (key ∷ order)
  unfolding aggregate_plain
  over_gone key order e ih n m st =
      ap (λ (fast : List (FastRow F)). over_fast fast n st) (fresh_gone cols rows key order e)
      ∙ ih n (tick background m).0 st
      ∙ rw (aggregate_plain, tick-background m, shown_gone rows key e) refl

  over_unkeyed :
      (key : Text) (order : List Text) (row : Row F)
      → text_eq key [] ≡ true
      → Same order
      → (n m : ℕ) (st : AggregateState F)
      → over_fast (at_key key row ∷ fresh cols rows order) n st ≡ over_rows (key ∷ order) m st
  unfolding aggregate_fast aggregate_plain
  over_unkeyed key order row k ih n m st =
      rw
        (
          aggregate_fast,
          aggregate_plain,
          tick-background n,
          tick-background m,
          shown_unkeyed rows key k,
          k,
        )
        (ih (tick background n).0 (tick background m).0 st)

  module _ (key : Text) (order : List Text) (row : Row F) (k : text_eq key [] ≡ false)
      (e : get shown key ≡ some row) (ih : Same order) where
    over_skipped :
        holds row ≡ false
        → (n m : ℕ) (st : AggregateState F)
        → over_fast (at_key key row ∷ fresh cols rows order) n st ≡ over_rows (key ∷ order) m st
    unfolding aggregate_fast aggregate_plain
    over_skipped h n m st =
        rw
          (
            aggregate_fast,
            aggregate_plain,
            tick-background n,
            tick-background m,
            e,
            h,
            k,
            same_test row,
            h,
          )
          (ih (tick background n).0 (tick background m).0 st)

    over_met :
        holds row ≡ true
        → (n m : ℕ) (st : AggregateState F)
        → over_fast (at_key key row ∷ fresh cols rows order) n st ≡ over_rows (key ∷ order) m st
    unfolding aggregate_fast aggregate_plain
    over_met h n m st =
        let n' = (tick background n).0 in
        let m' = (tick background m).0 in
        elim (Answer-cases (meet sums call (answer (cell row call.column)) st)) [
          | inl (after, p) ↦
              rw
                (
                  aggregate_fast,
                  aggregate_plain,
                  tick-background n,
                  tick-background m,
                  e,
                  h,
                  k,
                  same_test row,
                  h,
                  same_meet row st ∙ p,
                  p,
                )
                (ih n' m' after)
          | inr (inl (x, p)) ↦
              rw
                (
                  aggregate_fast,
                  aggregate_plain,
                  tick-background n,
                  tick-background m,
                  e,
                  h,
                  k,
                  same_test row,
                  h,
                  same_meet row st ∙ p,
                  p,
                )
                refl
          | inr (inr p) ↦
              rw
                (
                  aggregate_fast,
                  aggregate_plain,
                  tick-background n,
                  tick-background m,
                  e,
                  h,
                  k,
                  same_test row,
                  h,
                  same_meet row st ∙ p,
                  p,
                )
                refl
        ]

  -- The two loops agree, however many ticks they have taken.
  pub aggregate_fast-aggregate_plain : (order : List Text) → Same order
  unfolding aggregate_fast aggregate_plain fresh
  aggregate_fast-aggregate_plain [] n m st = refl
  aggregate_fast-aggregate_plain (key ∷ order) n m st = elim (Option-cases (get rows key)) [
    | inl e ↦ over_gone key order e (aggregate_fast-aggregate_plain order) n m st
    | inr (row, e) ↦
        ap (λ (fast : List (FastRow F)). over_fast fast n st)
          (fresh_there cols rows key order row e)
        ∙ elim (Bool-cases (text_eq key [])) [
          | inl k ↦ over_unkeyed key order row k (aggregate_fast-aggregate_plain order) n m st
          | inr k ↦
              let there = shown_there rows key row e k in
              elim (Bool-cases (holds row)) [
                | inl h ↦
                    over_met key order row k there (aggregate_fast-aggregate_plain order) h n m st
                | inr h ↦
                    over_skipped key order row k there (aggregate_fast-aggregate_plain order) h n m
                      st
              ]
        ]
  ]

module _ {F : Type 0} ⦃fl : Floats F⦄ (sums : Sums F) (t : Table F) (call : AggregateCall)
    (c : CompiledCondition F) where
  value_in-cell :
      (row : Row F) (st : AggregateState F)
      → call.count_star || has_column t.columns call.column ≡ true
      → meet sums call
          (value_in sums
            (values_of t.columns row)
            (get (number_columns 0 t.columns []) call.column))
          st
        ≡ meet sums call (answer (cell row call.column)) st
  unfolding meet value_in
  value_in-cell row st h = elim (Bool-cases call.count_star) [
    | inl b ↦ rw b refl
    | inr b ↦
        let (j, e, v) = position row 0 t.columns [] call.column (ground (arith, b, h)) in
        let there : value_in sums (values_of t.columns row)
              (get (number_columns 0 t.columns []) call.column)
            ≡ answer (cell row call.column) =
          ap (value_in sums (values_of t.columns row)) (e ∙ ap some (omega arith))
          ∙ ap in_range v in
        ap (λ (a : Answer (Value F)). meet sums call a st) there
  ]

  -- On a table of 256 keys or more in the scan order whose fast array has just been rebuilt, the scan of an
  -- aggregate that tests each row by its compiled WHERE ends with the counts, the total and the extremes, or
  -- the error, of the scan of the rows but for a row under the empty key, which it leaves out. It assumes that
  -- the aggregate is COUNT(*) or of a column that is there, and that nothing cancels.
  pub aggregate_fast-rebuilt :
      (lower : Text → Text) (condition : Text) (st : AggregateState F)
      → compile_condition lower condition t.columns ≡ some c
      → call.count_star || has_column t.columns call.column ≡ true
      → ltb (length t.order) fast_path_threshold ≡ false
      → aggregate_fast sums background
          (λ values. matches_fast c values (rebuild_fast_path t).positions)
          call
          (get (rebuild_fast_path t).positions call.column)
          (rebuild_fast_path t).fast
          0
          st
        ≡ aggregate_plain sums background (matches_map c) call (remove t.rows []) t.order 0 st
  unfolding rebuild_fast_path
  aggregate_fast-rebuilt lower condition st compiled known big =
      let positions = number_columns 0 t.columns [] in
      rw big (
        ap
          (λ (fast : List (FastRow F)).
            aggregate_fast sums background (λ values. matches_fast c values positions) call
              (get positions call.column) fast 0 st)
          (rebuild_rows-fresh t.columns t.rows t.order [] [])
        ∙ aggregate_fast-aggregate_plain sums (λ values. matches_fast c values positions)
            (matches_map c) call t.columns (get positions call.column) t.rows
            (λ row. matches_fast-matches_map row lower condition t.columns c compiled)
            (λ row s. value_in-cell row s known) t.order 0 0 st)
