-- ===== src/Engine/Group/Counted.antt =====
-- COUNT(*) counts the rows of each group.
use super_db.Engine.Group.{
  arg_cell, GroupItem, Groups, Slot, Sums, agg_count, arg_cells, group_plain, new_accum, new_slot,
  step_slot, step_slots,
}
use super_db.Engine.Outcome.{background}
use super_db.Engine.Select.Scan.{answer, ◌>>=◌}
use super_db.Engine.Table.{Table}
use super_db.Engine.Value.{Column, Floats, Row, Value}
use super_db.Prelude.{
  ℕ, Text, List, Bool, none, ◌∷◌, [], ◌≡◌, ◌+◌, refl, ap, ◌∙◌, sym, arith, length, text_instance,
}
use super_db.Engine.Group.Own.{own_rows, aggregate, slots_at, answer-bind, answer-injective}
use super_db.Engine.Group.Gathered.{group_plain-own}

-- the count of the first aggregate
unfoldable pub first_count : {F : Type 0} → List (Slot F) → ℕ
first_count [] = 0
first_count (s ∷ slots) = s.count

module _ {F : Type 0} ⦃fl : Floats F⦄ (sums : Sums F) (columns : List Column) (item : GroupItem)
    (aggs : List GroupItem) (group_by : List Text) (counts : item.kind ≡ agg_count)
    (star : item.arg_index ≡ none) where
  step_slot-count :
      (v : Value F) (s : Slot F)
      → step_slot sums item v s ≡ answer (record s { count = s.count + 1 })
  unfolding step_slot
  step_slot-count v s = rw (step_slot, counts, star) refl

  step_slots-count :
      (args : List (Value F)) (s : Slot F) (slots next : List (Slot F)) (v : Value F)
      → step_slots sums (item ∷ aggs) (v ∷ args) (s ∷ slots) ≡ answer next
      → (rest : List (Slot F)) × (next ≡ record s { count = s.count + 1 } ∷ rest)
  unfolding step_slots
  step_slots-count args s slots next v h =
      let (s', e, f) = answer-bind (step_slot sums item v s) _ next h in
      let (rest, r, g) = answer-bind (step_slots sums aggs args slots) _ next f in
      (
        rest,
        sym (answer-injective (s' ∷ rest) next g)
            ∙ ap (λ (x : Slot F). x ∷ rest) (answer-injective s' _ (sym e ∙ step_slot-count v s)),
      )

  meet-count :
      (row : Row F) (s : Slot F) (slots next : List (Slot F))
      → (arg_cells sums columns row (item ∷ aggs) >>= λ args.
          step_slots sums (item ∷ aggs) args (s ∷ slots))
        ≡ answer next
      → (rest : List (Slot F)) × (next ≡ record s { count = s.count + 1 } ∷ rest)
  unfolding arg_cells
  meet-count row s slots next h =
      let (args, a, f) = answer-bind (arg_cells sums columns row (item ∷ aggs)) _ next h in
      let (v, b, g) =
        answer-bind (arg_cell sums columns row item.arg_index)
          (λ (x : Value F).
            arg_cells sums columns row aggs >>= λ (xs : List (Value F)). answer (x ∷ xs))
          args a in
      let (vs, c, k) =
        answer-bind (arg_cells sums columns row aggs) (λ (xs : List (Value F)). answer (v ∷ xs))
          args g in
      step_slots-count vs s slots next v (
        ap (λ (xs : List (Value F)). step_slots sums (item ∷ aggs) xs (s ∷ slots))
          (answer-injective (v ∷ vs) args k)
        ∙ f)

  aggregate-count :
      (rows : List (Row F)) (s : Slot F) (slots after : List (Slot F))
      → aggregate sums columns (item ∷ aggs) group_by (s ∷ slots) rows ≡ answer after
      → first_count after ≡ s.count + length rows
  unfolding aggregate first_count
  aggregate-count [] s slots after h =
      ap first_count (sym (answer-injective (s ∷ slots) after h)) ∙ omega arith
  aggregate-count (row ∷ rows) s slots after h =
      let (next, a, f) = answer-bind _ _ after h in
      let (rest, e) = meet-count row s slots next a in
      aggregate-count rows (record s { count = s.count + 1 }) rest after
        (ap (λ (x : List (Slot F)). aggregate sums columns (item ∷ aggs) group_by x rows) (sym e)
          ∙ f)
      ∙ omega arith

module _ {F : Type 0} ⦃fl : Floats F⦄ (sums : Sums F) (t : Table F) (item : GroupItem)
    (aggs : List GroupItem) (group_by : List Text) (test : Row F → Bool) where
  -- Where COUNT(*) is the first aggregate, each group of a GROUP BY over the rows of a table counts its own
  -- rows: those that the WHERE holds for and whose grouping columns have the group's key. It assumes that
  -- the scan ends with groups and that nothing cancels it.
  pub group_plain-count :
      (after : Groups sums) (k : Text)
      → item.kind ≡ agg_count
      → item.arg_index ≡ none
      → group_plain sums background test t (item ∷ aggs) group_by t.order 0 [] ≡ answer after
      → first_count (slots_at sums t.columns (item ∷ aggs) group_by after k)
        ≡ length (own_rows sums t.columns (item ∷ aggs) group_by test t.rows t.order k)
  unfolding new_accum new_slot
  group_plain-count after k counts star h =
      aggregate-count sums t.columns item aggs group_by counts star
        (own_rows sums t.columns (item ∷ aggs) group_by test t.rows t.order k) (new_slot sums) _ _
        (group_plain-own sums t (item ∷ aggs) group_by test after k h)
      ∙ omega arith
