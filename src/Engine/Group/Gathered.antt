-- ===== src/Engine/Group/Gathered.antt =====
-- Each group holds the aggregates of its own rows, taken in the order of the scan.
use super_db.Engine.Group.{GroupItem, Groups, Slot, Sums, group_plain, new_accum, plain_row}
use super_db.Engine.Outcome.{background, tick}
use super_db.Engine.Select.Found.{tick-background}
use super_db.Engine.Select.Scan.{Answer-cases, Answer, answer, failed, panicked}
use super_db.Engine.Table.{Table}
use super_db.Engine.Value.{Floats, Row}
use super_db.Prelude.Map.{get}
use super_db.Prelude.{
  ℕ, Text, List, Bool, none, some, true, false, ◌∷◌, [], ◌≡◌, refl, ap, ◌∙◌, sym, Bool-cases,
  Option-cases, inl, inr, text_eq, text_instance,
}
use super_db.Engine.Group.Own.{
  own_rows, aggregate, slots_at, answer-injective, plain_row-own, plain_row-other, own_gone,
  own_skipped, own_other, own_there, aggregate-cons, key_of,
}

module _ {F : Type 0} ⦃fl : Floats F⦄ (sums : Sums F) (t : Table F) (aggs : List GroupItem)
    (group_by : List Text) (test : Row F → Bool) where
  abbrev scan : List Text → ℕ → Groups sums → Answer (Groups sums)
  scan order n groups = group_plain sums background test t aggs group_by order n groups

  scan_gone :
      (key : Text) (order : List Text) (n : ℕ) (groups : Groups sums)
      → get t.rows key ≡ none
      → scan (key ∷ order) n groups ≡ scan order (tick background n).0 groups
  unfolding group_plain
  scan_gone key order n groups e = rw (group_plain, tick-background n, e) refl

  scan_skipped :
      (key : Text) (order : List Text) (n : ℕ) (groups : Groups sums) (row : Row F)
      → get t.rows key ≡ some row
      → test row ≡ false
      → scan (key ∷ order) n groups ≡ scan order (tick background n).0 groups
  unfolding group_plain
  scan_skipped key order n groups row e h = rw (group_plain, tick-background n, e, h) refl

  -- a scan that meets a row and ends with an answer has taken the row's step
  scan_met :
      (key : Text) (order : List Text) (n : ℕ) (groups after : Groups sums) (row : Row F)
      → get t.rows key ≡ some row
      → test row ≡ true
      → scan (key ∷ order) n groups ≡ answer after
      → (next : Groups sums) × (plain_row sums t.columns aggs group_by groups row ≡ answer next)
        × (scan order (tick background n).0 next ≡ answer after)
  unfolding group_plain
  scan_met key order n groups after row e h s =
      elim (Answer-cases (plain_row sums t.columns aggs group_by groups row)) [
        | inl (next, p) ↦
            let step : scan (key ∷ order) n groups ≡ scan order (tick background n).0 next =
              rw (group_plain, tick-background n, e, h, p) refl in
            (next, p, sym step ∙ s)
        | inr (inl (x, p)) ↦
            let step : scan (key ∷ order) n groups ≡ failed x =
              rw (group_plain, tick-background n, e, h, p) refl in
            absurd (cc)
        | inr (inr p) ↦
            let step : scan (key ∷ order) n groups ≡ panicked =
              rw (group_plain, tick-background n, e, h, p) refl in
            absurd (cc)
      ]

  abbrev own : List Text → Text → List (Row F)
  own order k = own_rows sums t.columns aggs group_by test t.rows order k

  abbrev held : Groups sums → Text → List (Slot F)
  held groups k = slots_at sums t.columns aggs group_by groups k

  scan_done :
      (n : ℕ) (groups after : Groups sums) (k : Text)
      → scan [] n groups ≡ answer after
      → aggregate sums t.columns aggs group_by (held groups k) (own [] k) ≡ answer (held after k)
  unfolding group_plain own_rows aggregate
  scan_done n groups after k h =
      ap (λ (g : Groups sums). answer (held g k)) (answer-injective groups after h)

  -- The groups that a scan ends with hold, for each key, the aggregates over the rows of that key, from
  -- those that they held before.
  group_plain-from :
      (order : List Text) (n : ℕ) (groups after : Groups sums) (k : Text)
      → scan order n groups ≡ answer after
      → aggregate sums t.columns aggs group_by (held groups k) (own order k) ≡ answer (held after k)
  group_plain-from [] n groups after k h = scan_done n groups after k h
  group_plain-from (key ∷ order) n groups after k h =
      let run = aggregate sums t.columns aggs group_by (held groups k) in
      elim (Option-cases (get t.rows key)) [
        | inl e ↦
            ap run (own_gone sums t.columns aggs group_by test t.rows key order k e)
            ∙ group_plain-from order (tick background n).0 groups after k
                (sym (scan_gone key order n groups e) ∙ h)
        | inr (row, e) ↦ elim (Bool-cases (test row)) [
          | inr b ↦
              ap run (own_skipped sums t.columns aggs group_by test t.rows key order k row e b)
              ∙ group_plain-from order (tick background n).0 groups after k
                  (sym (scan_skipped key order n groups row e b) ∙ h)
          | inl b ↦
              let (next, p, rest) = scan_met key order n groups after row e b h in
              let ih = group_plain-from order (tick background n).0 next after k rest in
              elim (Bool-cases (text_eq (key_of sums t.columns aggs group_by row) k)) [
                | inl same ↦
                    ap run
                      (own_there sums t.columns aggs group_by test t.rows key order k row e b same)
                    ∙ aggregate-cons sums t.columns aggs group_by (held groups k) (held next k) row
                        (own order k)
                        (plain_row-own sums t.columns aggs group_by groups next row k p same)
                    ∙ ih
                | inr other ↦
                    ap run
                      (own_other sums t.columns aggs group_by test t.rows key order k row e b other)
                    ∙ ap
                        (λ (slots : List (Slot F)).
                          aggregate sums t.columns aggs group_by slots (own order k))
                        (sym
                          (plain_row-other sums t.columns aggs group_by groups next row k p other))
                    ∙ ih
              ]
        ]
      ]

  -- Each group of a GROUP BY over the rows of a table holds the aggregates over its own rows alone, in the
  -- order of the scan: those that its WHERE holds for and whose grouping columns have the group's key. It
  -- assumes that the scan ends with groups and that nothing cancels it.
  pub group_plain-own :
      (after : Groups sums) (k : Text)
      → group_plain sums background test t aggs group_by t.order 0 [] ≡ answer after
      → aggregate sums t.columns aggs group_by
          (new_accum sums aggs []).slots
          (own_rows sums t.columns aggs group_by test t.rows t.order k)
        ≡ answer (slots_at sums t.columns aggs group_by after k)
  unfolding slots_at get
  group_plain-own after k h = group_plain-from t.order 0 [] after k h
