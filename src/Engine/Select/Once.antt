-- ===== src/Engine/Select/Once.antt =====
-- SELECT DISTINCT over the rows of a table: each line that is found, and none of them twice.
use super_db.Engine.Condition.{CompiledCondition}
use super_db.Engine.Order.{HeapOps, OrderEntry}
use super_db.Engine.Outcome.{background}
use super_db.Engine.Select.{max_int}
use super_db.Engine.Select.Distinct.{Among, NoRepeats, distinct_lines-exact}
use super_db.Engine.Select.Found.{distinct_lines, found_lines}
use super_db.Engine.Select.Page.{cut}
use super_db.Engine.Select.Plain.{select_ordered-page}
use super_db.Engine.Select.Rows.{Query, cap_result_rows, is_zero, row_test, select_ordered}
use super_db.Engine.Select.Scan.{Lines, answer}
use super_db.Engine.Table.{Table}
use super_db.Engine.Value.{Floats, Value}
use super_db.Prelude.{
  ℕ, Text, List, Bool, Option, none, true, false, [], ◌≡◌, ◌≤◌, ◌↔◌, refl, ap, ◌∙◌, arith, length,
  drop,
}

pub no_limit : (q : Query) → q.limit ≡ none → is_zero q.limit ≡ false
unfolding is_zero
no_limit q l = rw l refl

module _ {F : Type 0} ⦃fl : Floats F⦄ where
  whole_page : (ls : Lines F) → cap_result_rows 0 (cut none (drop 0 ls)) ≡ answer ls
  unfolding cap_result_rows
  whole_page ls = refl

  pub no_bounds :
      (q : Query) (found : Lines F) (distinct : Bool)
      → q.distinct ≡ distinct
      → q.limit ≡ none
      → q.offset ≡ 0
      → q.max_rows ≡ 0
      → cap_result_rows q.max_rows
          (cut q.limit (drop q.offset (distinct_lines q.distinct [] found)))
        ≡ answer (distinct_lines distinct [] found)
  no_bounds q found distinct d l o m =
      ap
        (λ (n : ℕ).
          cap_result_rows n (cut q.limit (drop q.offset (distinct_lines q.distinct [] found))))
        m
      ∙ ap
          (λ (n : Option ℕ).
            cap_result_rows 0 (cut n (drop q.offset (distinct_lines q.distinct [] found))))
          l
      ∙ ap (λ (n : ℕ). cap_result_rows 0 (cut none (drop n (distinct_lines q.distinct [] found)))) o
      ∙ ap (λ (b : Bool). cap_result_rows 0 (cut none (drop 0 (distinct_lines b [] found)))) d
      ∙ whole_page (distinct_lines distinct [] found)

  -- A SELECT DISTINCT without ORDER BY, LIMIT, OFFSET and MaxRows that scans the rows of a table without a
  -- fast array answers with lines of which no two are the same, and which are exactly the lines of the rows
  -- of the scan order that its WHERE holds for. It assumes that two floats that are formatted alike are the
  -- same, that the scan order's length is an int and that nothing cancels.
  pub select_ordered-distinct :
      (exact : (x y : F) → fl.format x ≡ fl.format y → x ≡ y) (lower : Text → Text)
      (ops : HeapOps (OrderEntry F))
      (sort : (OrderEntry F → OrderEntry F → Bool) → List (OrderEntry F) → List (OrderEntry F))
      (t : Table F) (q : Query) (c : CompiledCondition F)
      → t.fast ≡ []
      → q.order_column ≡ []
      → q.distinct ≡ true
      → q.limit ≡ none
      → q.offset ≡ 0
      → q.max_rows ≡ 0
      → length t.order ≤ max_int
      → (lines : Lines F) × (select_ordered background lower ops sort t q c ≡ answer lines)
        × NoRepeats lines
        × ((l : List (Value F))
            → Among l (found_lines (row_test q c) q.names t.rows t.order) ↔ Among l lines)
  select_ordered-distinct exact lower ops sort t q c no_fast unordered d l o m fit =
      let found = found_lines (row_test q c) q.names t.rows t.order in
      let (once, same) = distinct_lines-exact exact found in
      (
        distinct_lines true [] found,
        select_ordered-page lower ops sort t q c no_fast unordered (no_limit q l) (omega (arith, o))
              (omega (arith, m)) fit
            ∙ no_bounds q found true d l o m,
        once,
        same,
      )
