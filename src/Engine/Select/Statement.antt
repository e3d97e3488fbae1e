-- ===== src/Engine/Select/Statement.antt =====
-- internal/engine/select.go: the kind of SELECT that selectRows runs, with the table's lock held.
use super_db.Engine.Aggregate.{is_aggregate}
use super_db.Engine.Aggregate.Result.{aggregate_result}
use super_db.Engine.Group.{Sums}
use super_db.Engine.Group.Result.{Grouping, OutRow, grouped_result}
use super_db.Engine.Order.{HeapOps, OrderEntry}
use super_db.Engine.Outcome.{Context}
use super_db.Engine.Select.Rows.{is_zero, select_rows}
use super_db.Engine.Select.Scan.{Answer, Lines, answer, failed, ◌>>=◌, no_order_column}
use super_db.Engine.Table.{Table}
use super_db.Engine.Value.{Floats, has_column}
use super_db.Prelude.{Text, List, Bool, ◌∷◌, [], if◌then◌else◌, length, not, ltb, ◌&&◌, ◌||◌, ◌==◌}

module _ {F : Type 0} ⦃fl : Floats F⦄ (sums : Sums F) (ctx : Context) (lower raise : Text → Text)
    (ops : HeapOps (OrderEntry F))
    (sort : (OrderEntry F → OrderEntry F → Bool) → List (OrderEntry F) → List (OrderEntry F))
    (sort_rows : (OutRow F → OutRow F → Bool) → List (OutRow F) → List (OutRow F)) where
  -- an aggregate's one row, which LIMIT 0 or an OFFSET leaves out
  unfoldable pub aggregate_rows : Table F → Grouping → Answer (Lines F)
  unfolding is_zero
  aggregate_rows t g = aggregate_result sums ctx lower t g.select_list g.query.condition >>= λ v.
      answer (if is_zero g.query.limit || ltb 0 g.query.offset then [] else (v ∷ []) ∷ [])

  -- `selectRows` from its clauses on; the query's names are the columns of the list
  unfoldable pub select_statement : Table F → Grouping → Answer (Lines F)
  unfolding aggregate_rows
  select_statement t g =
      if ltb 0 (length g.group_by)
      then grouped_result sums ctx lower raise sort_rows t g
      else if not (length g.query.order_column == 0)
          && not (has_column t.columns g.query.order_column)
      then failed (no_order_column g.query.order_column)
      else if is_aggregate g.select_list
      then aggregate_rows t g
      else select_rows ctx lower ops sort t g.query
