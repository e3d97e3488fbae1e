-- ===== src/Engine/Group/Items.antt =====
-- internal/engine/group.go: the select list of a GROUP BY, taken apart into columns and aggregates.
use super_db.Engine.Group.{AggKind, GroupItem, agg_count, agg_sum, agg_min, agg_max, agg_avg}
use super_db.Engine.Fold.{quote_at}
use super_db.Engine.Select.Scan.{
  Answer, answer, failed, ◌>>=◌, invalid_select_list, no_column, not_grouped,
}
use super_db.Prelude.Decimal.{ℤ, pos}
use super_db.Prelude.Map.{Map, get, has}
use super_db.Strings.{trim_space}
use super_db.Strings.Depth.{up, down, is_level}
use super_db.Prelude.{
  ℕ, Text, List, Bool, Option, none, some, true, false, ◌∷◌, [], ◌==◌, ◌&&◌, ◌||◌, not, reverse,
  codes, if◌then◌else◌, length, drop, text_eq, text_instance,
}

-- `depth`, which the parentheses outside quotes move
depth_at : ℕ → ℤ → ℤ
unfolding up down
depth_at c depth = if c == 40 then up depth else if c == 41 then down depth else depth

-- the loop of `splitSelectList`: `field` is s[start:i] in reverse, and `skip` says that the byte is the
-- second of a doubled quote
unfoldable pub split_select_from : Bool → Bool → ℤ → Text → Text → List Text
unfolding quote_at is_level depth_at
split_select_from skip quote depth field [] = trim_space (reverse field) ∷ []
split_select_from true quote depth field (c ∷ s) = split_select_from false quote depth (c ∷ field) s
split_select_from false quote depth field (c ∷ s) = elim (c == 39) [
  | true ↦
      let pair = quote && quote_at s in
      split_select_from pair (if pair then quote else not quote) depth (c ∷ field) s
  | false ↦ elim quote [
    | true ↦ split_select_from false true depth (c ∷ field) s
    | false ↦ elim (c == 44 && is_level depth) [
      | true ↦ trim_space (reverse field) ∷ split_select_from false false depth [] s
      | false ↦ split_select_from false false (depth_at c depth) (c ∷ field) s
    ]
  ]
]

-- `splitSelectList`
unfoldable pub split_select_list : Text → List Text
split_select_list s = split_select_from false false (pos 0) [] s

-- `strings.IndexByte(item, '(')`, with the texts on both sides
open_at : Text → Option (Text × Text)
open_at [] = none
open_at (c ∷ s) =
    if c == 40
    then some ([], s)
    else elim (open_at s) [ none ↦ none | some (before, after) ↦ some (c ∷ before, after) ]

-- `strings.HasSuffix(s, ")")`
closes : Text → Bool
closes [] = false
closes (c ∷ []) = c == 41
closes (c ∷ d ∷ s) = closes (d ∷ s)

agg_of : Text → Option AggKind
agg_of s =
    if text_eq s (codes "COUNT")
    then some agg_count
    else if text_eq s (codes "SUM")
    then some agg_sum
    else if text_eq s (codes "MIN")
    then some agg_min
    else if text_eq s (codes "MAX")
    then some agg_max
    else if text_eq s (codes "AVG")
    then some agg_avg
    else none

is_count : AggKind → Bool
is_count agg_count = true
is_count _ = false

star : Text
star = codes "*"

-- `lower` is strings.ToLower and `raise` is strings.ToUpper.
module _ (lower raise : Text → Text) where
  arg_of : AggKind → Text → Option (AggKind × Text)
  unfolding is_count star
  arg_of kind arg =
      if length arg == 0 || (text_eq arg star && not (is_count kind))
      then none
      else some (kind, arg)

  -- `parseAggExpr`; what stands between the parenthesis and the last byte is `after` without its last
  unfoldable pub parse_agg_expr : Text → Option (AggKind × Text)
  unfolding open_at closes agg_of arg_of
  parse_agg_expr item = elim (open_at item) [
    | none ↦ none
    | some (before, after) ↦
        if not (closes (trim_space item)) then none else elim (agg_of (raise (trim_space before))) [
          | none ↦ none
          | some kind ↦ arg_of kind (lower (trim_space (reverse (drop 1 (reverse after)))))
        ]
  ]

  agg_item : Map Text ℕ → Text → AggKind × Text → Answer GroupItem
  unfolding star
  agg_item col_index p (kind, arg) =
      let item : GroupItem = record {
        name = lower p;
        is_agg = true;
        kind = kind;
        arg = arg;
        arg_index = none;
      } in
      if text_eq arg star then answer item else elim (get col_index arg) [
        | none ↦ failed (no_column arg)
        | some i ↦ answer (record item { arg_index = some i })
      ]

  -- one entry of the list; `group_col` has the columns of GROUP BY. A plain column is an aggregate of
  -- kind 0 that nothing asks for.
  unfoldable pub item_of : Map Text ℕ → Map Text Bool → Text → Answer GroupItem
  unfolding agg_item
  item_of col_index group_col p = elim (parse_agg_expr p) [
    | some found ↦ agg_item col_index p found
    | none ↦
        let col = lower p in
        if has group_col col
        then answer
            (record { name = col; is_agg = false; kind = agg_count; arg = col; arg_index = some 0 })
        else failed (not_grouped col)
  ]

  -- the loop over the parts
  unfoldable pub items_of : Map Text ℕ → Map Text Bool → List Text → Answer (List GroupItem)
  unfolding item_of
  items_of col_index group_col [] = answer []
  items_of col_index group_col (p ∷ parts) =
      if length (trim_space p) == 0
      then failed invalid_select_list
      else (item_of col_index group_col (trim_space p) >>= λ item.
          items_of col_index group_col parts >>= λ items. answer (item ∷ items))

-- `aggIdxs`, as the items themselves
unfoldable pub aggs_of : List GroupItem → List GroupItem
aggs_of [] = []
aggs_of (item ∷ items) = if item.is_agg then item ∷ aggs_of items else aggs_of items
