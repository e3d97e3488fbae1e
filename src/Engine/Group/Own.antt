-- ===== src/Engine/Group/Own.antt =====
-- What a row changes in the groups of a GROUP BY.
use super_db.Engine.Group.{
  GroupAccum, GroupItem, Groups, Slot, Sums, accumulate, arg_cells, cells, new_accum, plain_row,
  step_slots,
}
use super_db.Engine.Select.{row_projection_key}
use super_db.Engine.Select.Scan.{Answer, answer, failed, panicked, ◌>>=◌}
use super_db.Engine.Value.{Column, Floats, Row, Value}
use super_db.Prelude.Map.{Map, get, get-put, get_or, put}
use super_db.Prelude.{
  Text, List, Bool, none, some, true, false, ◌∷◌, [], ◌≡◌, refl, ap, ◌∙◌, sym, arith, Bool-cases,
  Option-cases, inl, inr, text_eq, text_eq_iff, text_instance, if◌then◌else◌,
}

-- An answer comes from an answer.
pub answer-bind :
    {A B : Type 0} (a : Answer A) (f : A → Answer B) (b : B)
    → (a >>= f) ≡ answer b
    → (x : A) × (a ≡ answer x) × (f x ≡ answer b)
answer-bind (answer x) f b h = (x, refl, h)
answer-bind (failed e) f b h = absurd (cc)
answer-bind panicked f b h = absurd (cc)

of_answer : {A : Type 0} → A → Answer A → A
of_answer d (answer a) = a
of_answer d _ = d

pub answer-injective : {A : Type 0} (a b : A) → answer a ≡ answer b → a ≡ b
unfolding of_answer
answer-injective a b h = ap (of_answer a) h

module _ {F : Type 0} ⦃fl : Floats F⦄ (sums : Sums F) (columns : List Column)
    (aggs : List GroupItem) (group_by : List Text) where
  -- the rows of the scan order that `test` holds for and whose group has the key `k`
  unfoldable pub own_rows : (Row F → Bool) → Map Text (Row F) → List Text → Text → List (Row F)
  own_rows test rows [] k = []
  own_rows test rows (key ∷ order) k = elim (get rows key) [
    | none ↦ own_rows test rows order k
    | some row ↦
        if test row
        then (if text_eq (row_projection_key (cells sums row group_by)) k
            then row ∷ own_rows test rows order k
            else own_rows test rows order k)
        else own_rows test rows order k
  ]

  -- the aggregates over some rows, from those of `slots` on
  unfoldable pub aggregate : List (Slot F) → List (Row F) → Answer (List (Slot F))
  aggregate slots [] = answer slots
  aggregate slots (row ∷ rows) =
      (arg_cells sums columns row aggs >>= λ args. step_slots sums aggs args slots) >>= λ next.
      aggregate next rows

  -- the aggregates of the group with the key, or those of an empty group
  unfoldable pub slots_at : Groups sums → Text → List (Slot F)
  slots_at groups k = elim (get groups k) [
    | none ↦ (new_accum sums aggs []).slots
    | some g ↦ g.slots
  ]

  slots-key :
      (groups : Groups sums) (gvals : List (Value F)) (k : Text)
      → (get_or (get groups k) (new_accum sums aggs gvals)).slots ≡ slots_at groups k
  unfolding slots_at new_accum
  slots-key groups gvals k = elim (Option-cases (get groups k)) [
    | inl e ↦ rw (slots_at, e) refl
    | inr (g, e) ↦ rw (slots_at, e) refl
  ]

  slots_at-put :
      (groups : Groups sums) (key k : Text) (g : GroupAccum F)
      → slots_at (put groups key g) k ≡ (if text_eq key k then g.slots else slots_at groups k)
  unfolding slots_at
  slots_at-put groups key k g = elim (Bool-cases (text_eq key k)) [
    | inl b ↦
        let e : get (put groups key g) k ≡ some g = ground (arith, b, get-put groups key g k) in
        rw (slots_at, e, b) refl
    | inr b ↦
        let e : get (put groups key g) k ≡ get groups k =
          ground (arith, b, get-put groups key g k) in
        rw (slots_at, e, b) refl
  ]

  -- one step of the aggregates of a group
  abbrev pub meet : Row F → List (Slot F) → Answer (List (Slot F))
  meet row slots = arg_cells sums columns row aggs >>= λ args. step_slots sums aggs args slots

  abbrev pub key_of : Row F → Text
  key_of row = row_projection_key (cells sums row group_by)

  abbrev accum_of : Groups sums → Row F → GroupAccum F
  accum_of groups row =
      get_or (get groups (key_of row)) (new_accum sums aggs (cells sums row group_by))

  -- a row's step, if it makes one
  plain_row-step :
      (groups after : Groups sums) (row : Row F)
      → plain_row sums columns aggs group_by groups row ≡ answer after
      → (slots : List (Slot F)) × (meet row (slots_at groups (key_of row)) ≡ answer slots)
        × (put groups (key_of row) (record (accum_of groups row) { slots = slots }) ≡ after)
  unfolding plain_row accumulate
  plain_row-step groups after row h =
      let (args, e, f) = answer-bind (arg_cells sums columns row aggs) _ after h in
      let (slots, s, g) =
        answer-bind (step_slots sums aggs args (accum_of groups row).slots) _ after f in
      (
        slots,
        ap
              (λ (a : Answer (List (Value F))).
                a >>= λ args'. step_slots sums aggs args' (slots_at groups (key_of row)))
              e
            ∙ ap (step_slots sums aggs args)
                (sym (slots-key groups (cells sums row group_by) (key_of row)))
            ∙ s,
        answer-injective _ _ g,
      )

  -- What a row changes: the aggregates of its own group make a step, the others stay.
  pub plain_row-own :
      (groups after : Groups sums) (row : Row F) (k : Text)
      → plain_row sums columns aggs group_by groups row ≡ answer after
      → text_eq (key_of row) k ≡ true
      → meet row (slots_at groups k) ≡ answer (slots_at after k)
  plain_row-own groups after row k h same =
      let (slots, m, p) = plain_row-step groups after row h in
      let k_is : key_of row ≡ k = (text_eq_iff (key_of row) k).0 same in
      let there : slots_at after k ≡ slots =
        ap (λ (g : Groups sums). slots_at g k) (sym p)
        ∙ slots_at-put groups (key_of row) k _
        ∙ rw same refl in
      ap (λ (j : Text). meet row (slots_at groups j)) (sym k_is) ∙ m ∙ ap answer (sym there)

  pub plain_row-other :
      (groups after : Groups sums) (row : Row F) (k : Text)
      → plain_row sums columns aggs group_by groups row ≡ answer after
      → text_eq (key_of row) k ≡ false
      → slots_at after k ≡ slots_at groups k
  plain_row-other groups after row k h other =
      let (slots, m, p) = plain_row-step groups after row h in
      ap (λ (g : Groups sums). slots_at g k) (sym p)
      ∙ slots_at-put groups (key_of row) k _
      ∙ rw other refl

  pub own_gone :
      (test : Row F → Bool) (rows : Map Text (Row F)) (key : Text) (order : List Text) (k : Text)
      → get rows key ≡ none
      → own_rows test rows (key ∷ order) k ≡ own_rows test rows order k
  unfolding own_rows
  own_gone test rows key order k e = rw (own_rows, e) refl

  pub own_skipped :
      (test : Row F → Bool) (rows : Map Text (Row F)) (key : Text) (order : List Text) (k : Text)
      (row : Row F)
      → get rows key ≡ some row
      → test row ≡ false
      → own_rows test rows (key ∷ order) k ≡ own_rows test rows order k
  unfolding own_rows
  own_skipped test rows key order k row e h = rw (own_rows, e, h) refl

  pub own_other :
      (test : Row F → Bool) (rows : Map Text (Row F)) (key : Text) (order : List Text) (k : Text)
      (row : Row F)
      → get rows key ≡ some row
      → test row ≡ true
      → text_eq (key_of row) k ≡ false
      → own_rows test rows (key ∷ order) k ≡ own_rows test rows order k
  unfolding own_rows
  own_other test rows key order k row e h b = rw (own_rows, e, h, b) refl

  pub own_there :
      (test : Row F → Bool) (rows : Map Text (Row F)) (key : Text) (order : List Text) (k : Text)
      (row : Row F)
      → get rows key ≡ some row
      → test row ≡ true
      → text_eq (key_of row) k ≡ true
      → own_rows test rows (key ∷ order) k ≡ row ∷ own_rows test rows order k
  unfolding own_rows
  own_there test rows key order k row e h b = rw (own_rows, e, h, b) refl

  pub aggregate-cons :
      (slots next : List (Slot F)) (row : Row F) (rows : List (Row F))
      → meet row slots ≡ answer next
      → aggregate slots (row ∷ rows) ≡ aggregate next rows
  unfolding aggregate
  aggregate-cons slots next row rows h = rw h refl
