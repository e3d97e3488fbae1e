-- ===== src/Engine/Insert/Parse/Batch.antt =====
-- The rows that the parsers of INSERT give are what applyInsertRows expects.
use super_db.Engine.Insert.{InsertRow, apply_insert_rows}
use super_db.Engine.Insert.Indexed.{apply_insert_rows-IsIndexed}
use super_db.Engine.Insert.Ordered.{apply_insert_rows-IsOrdered}
use super_db.Engine.Table.Order.{IsOrdered}
use mathlib.Core.Path.{subst}
use super_db.Engine.Insert.Keeps.{AllKeyed, AllUnkeyed, IsBatch}
use super_db.Engine.Insert.Parse.{
  InsertError, Parsed, fill_row, flush_row, make_row, parse_insert_rows_mode, parse_mode_from,
  parsed, refused,
}
use super_db.Engine.Literal.{parse_val}
use super_db.Engine.Outcome.{Context}
use super_db.Engine.Table.{Table}
use super_db.Engine.Table.Frame.{IsIndexed}
use super_db.Engine.Value.{Column, Floats, Row, has_primary_column}
use super_db.Prelude.Decimal.{ℤ, pos}
use super_db.Prelude.Map.{Map, put}
use super_db.Strings.Depth.{down, is_level}
use super_db.Strings.{trim_space}
use super_db.Prelude.{
  ℕ, Text, List, Bool, Option, none, true, false, ◌∷◌, [], ◌++◌, ◌≡◌, ◌⊎◌, ◌==◌, ◌&&◌, not, reverse,
  refl, arith, Bool-cases, Option-cases, inl, inr, text_eq, text_instance,
}

Parsed-cases :
    {A : Type 0} (p : Parsed A) → ((a : A) × (p ≡ parsed a)) ⊎ ((e : InsertError) × (p ≡ refused e))
Parsed-cases (parsed a) = inl (a, refl)
Parsed-cases (refused e) = inr (e, refl)

parsed-injective : {A : Type 0} (a b : A) → parsed a ≡ parsed b → a ≡ b
parsed-injective a b h = cc

module _ {F : Type 0} where
  -- Every row has a key, or every one has none.
  AllKeys : Bool → List (InsertRow F) → Type 0
  AllKeys empty [] = Unit
  AllKeys empty (item ∷ items) = (text_eq item.key [] ≡ empty) × AllKeys empty items

  AllKeys-append :
      (empty : Bool) (items : List (InsertRow F)) (item : InsertRow F)
      → AllKeys empty items
      → text_eq item.key [] ≡ empty
      → AllKeys empty (items ++ (item ∷ []))
  unfolding AllKeys
  AllKeys-append empty [] item a h = (h, tt)
  AllKeys-append empty (i ∷ items) item (g, a) h = (g, AllKeys-append empty items item a h)

  AllKeys-AllKeyed : (items : List (InsertRow F)) → AllKeys false items → AllKeyed items
  unfolding AllKeys
  AllKeys-AllKeyed [] a = tt
  AllKeys-AllKeyed (item ∷ items) (h, a) = (h, AllKeys-AllKeyed items a)

  AllKeys-AllUnkeyed : (items : List (InsertRow F)) → AllKeys true items → AllUnkeyed items
  unfolding AllKeys
  AllKeys-AllUnkeyed [] a = tt
  AllKeys-AllUnkeyed (item ∷ items) (h, a) = (h, AllKeys-AllUnkeyed items a)

  AllKeys-IsBatch :
      (replace primary : Bool) (items : List (InsertRow F))
      → AllKeys (not primary) items
      → IsBatch replace items
  AllKeys-IsBatch replace true items a = inr (AllKeys-AllKeyed items a)
  AllKeys-IsBatch replace false items a = inl (inr (AllKeys-AllUnkeyed items a))

module _ {F : Type 0} ⦃fl : Floats F⦄ where
  -- Without a primary column the key stays.
  fill_row-key :
      (columns : List Column) (fields : List Text) (row after : Row F) (key key' : Text)
      → has_primary_column columns ≡ false
      → fill_row columns fields row key ≡ parsed (after, key')
      → key' ≡ key
  unfolding fill_row has_primary_column
  fill_row-key [] fields row after key key' h p = ground (arith, p)
  fill_row-key (c ∷ columns) [] row after key key' h p = ground (arith, p)
  fill_row-key (c ∷ columns) (field ∷ fields) row after key key' h p =
      elim (Option-cases (parse_val {F = F} field c.type)) [
        | inl e ↦ absurd (ground (arith, e, p))
        | inr (v, e) ↦
            fill_row-key columns fields (put row c.name v) after key key' (ground (arith, h))
              (ground (arith, e, h, p))
      ]

  make_row-key :
      (columns : List Column) (fields : List Text) (item : InsertRow F)
      → make_row columns fields ≡ parsed item
      → text_eq item.key [] ≡ not (has_primary_column columns)
  unfolding make_row text_eq
  make_row-key columns fields item h = elim (Parsed-cases (fill_row {F = F} columns fields [] [])) [
    | inr (e, p) ↦ absurd (ground (arith, p, h))
    | inl ((row, key), p) ↦ elim (Bool-cases (has_primary_column columns)) [
      | inl b ↦ ground (arith, p, b, h)
      | inr b ↦
          let same = fill_row-key columns fields [] row [] key b p in
          rw b (ground (arith, p, b, h, same))
    ]
  ]

  flush_row-AllKeys :
      (columns : List Column) (keep : Bool) (fields : List Text)
      (seen after : Option (Map Text (Unit {0}))) (rows rows' : List (InsertRow F))
      → AllKeys (not (has_primary_column columns)) rows
      → flush_row columns keep fields seen rows ≡ parsed (after, rows')
      → AllKeys (not (has_primary_column columns)) rows'
  unfolding flush_row
  flush_row-AllKeys columns keep fields seen after rows rows' a h =
      elim (Parsed-cases (make_row {F = F} columns fields)) [
        | inr (e, p) ↦ absurd (ground (arith, p, h))
        | inl (item, p) ↦
            let added : rows' ≡ rows ++ (item ∷ []) = ground (arith, p, h) in
            rw added (
              AllKeys-append (not (has_primary_column columns)) rows item a
                (make_row-key columns fields item p))
      ]

module _ (F : Type 0) ⦃fl : Floats F⦄ (columns : List Column) (keep : Bool) where
  abbrev empty : Bool
  empty = not (has_primary_column columns)

  -- What is parsed has keys as the columns want it.
  Good : Parsed (List (InsertRow F)) → Type 0
  Good (refused e) = Unit
  Good (parsed items) = AllKeys empty items

  abbrev Preserves : Text → Type 0
  Preserves s =
      (skip quote : Bool) (depth : ℤ) (opened : Bool) (fields : List Text) (value : Text)
      (seen : Option (Map Text (Unit {0}))) (rows : List (InsertRow F))
      → AllKeys empty rows
      → Good (parse_mode_from columns keep skip quote depth opened fields value seen rows s)

  keeps_end : Preserves []
  unfolding parse_mode_from Good
  keeps_end skip quote depth opened fields value seen [] a = tt
  keeps_end skip quote depth opened fields value seen (item ∷ rows) a = a

  module _ (c : ℕ) (s : Text) (ih : Preserves s) (depth : ℤ) (opened : Bool) (fields : List Text)
      (value : Text) (seen : Option (Map Text (Unit {0}))) (rows : List (InsertRow F))
      (a : AllKeys empty rows) where
    -- the end of a row
    keeps_flush :
        (c == 39) ≡ false
        → (c == 40) ≡ false
        → (c == 41) ≡ true
        → (is_level (down depth) && opened) ≡ true
        → Good
            (parse_mode_from columns keep false false depth opened fields value seen rows (c ∷ s))
    unfolding parse_mode_from Good
    keeps_flush q o e l =
        elim (Parsed-cases (flush_row columns keep (fields ++ (reverse value ∷ [])) seen rows)) [
          | inr (x, p) ↦ rw (parse_mode_from, q, o, e, l, p) tt
          | inl ((after, rows'), p) ↦
              rw (parse_mode_from, q, o, e, l, p)
                (ih false false (down depth) false fields (c ∷ value) after rows' (
                  flush_row-AllKeys columns keep (fields ++ (reverse value ∷ [])) seen after rows
                    rows' a p))
        ]

    keeps_plain :
        (c == 39) ≡ false
        → Good
            (parse_mode_from columns keep false false depth opened fields value seen rows (c ∷ s))
    unfolding parse_mode_from Good
    keeps_plain q = elim (Bool-cases (c == 40)) [
      | inl o ↦ rw (parse_mode_from, q, o) (ih false false _ _ _ _ _ rows a)
      | inr o ↦ elim (Bool-cases (c == 41)) [
        | inr e ↦ rw (parse_mode_from, q, o, e) (ih false false _ _ _ _ _ rows a)
        | inl e ↦ elim (Bool-cases (is_level (down depth) && opened)) [
          | inl l ↦ keeps_flush q o e l
          | inr l ↦ rw (parse_mode_from, q, o, e, l) (ih false false _ _ _ _ _ rows a)
        ]
      ]
    ]

    keeps_step :
        (quote : Bool)
        → Good
            (parse_mode_from columns keep false quote depth opened fields value seen rows (c ∷ s))
    unfolding parse_mode_from
    keeps_step quote = elim (Bool-cases (c == 39)) [
      | inl q ↦ rw (parse_mode_from, q) (ih _ _ _ _ _ _ _ rows a)
      | inr q ↦ elim (Bool-cases quote) [
        | inl b ↦ rw b (rw (parse_mode_from, q) (ih _ _ _ _ _ _ _ rows a))
        | inr b ↦ rw b (keeps_plain q)
      ]
    ]

  keeps : (s : Text) → Preserves s
  unfolding parse_mode_from
  keeps [] skip quote depth opened fields value seen rows a =
      keeps_end skip quote depth opened fields value seen rows a
  keeps (c ∷ s) true quote depth opened fields value seen rows a =
      keeps s false quote depth opened fields (c ∷ value) seen rows a
  keeps (c ∷ s) false quote depth opened fields value seen rows a =
      keeps_step c s (keeps s) depth opened fields value seen rows a quote

  -- The rows that are parsed from VALUES are a batch: each has a key, where the table has a primary
  -- column, or none has one.
  pub parse_insert_rows_mode-IsBatch :
      (raw : Text) (items : List (InsertRow F)) (replace : Bool)
      → parse_insert_rows_mode raw columns keep ≡ parsed items
      → IsBatch replace items
  unfolding parse_insert_rows_mode Good AllKeys
  parse_insert_rows_mode-IsBatch raw items replace h =
      AllKeys-IsBatch replace (has_primary_column columns) items
        (subst Good h (keeps (trim_space raw) false false (pos 0) false [] [] none [] tt))

  -- An INSERT of rows that are parsed from VALUES keeps the indexes in agreement with the rows, and each
  -- live key once in the scan order, whatever the text holds and wherever the statement ends.
  pub insert_values-IsIndexed :
      (ctx : Context) (t : Table F) (raw : Text) (items : List (InsertRow F))
      → parse_insert_rows_mode raw columns keep ≡ parsed items
      → IsIndexed t
      → IsOrdered t
      → IsIndexed (apply_insert_rows ctx keep t items).0
        × IsOrdered (apply_insert_rows ctx keep t items).0
  insert_values-IsIndexed ctx t raw items h indexed ordered =
      let batch = parse_insert_rows_mode-IsBatch raw items keep h in
      (
        apply_insert_rows-IsIndexed ctx keep t items batch indexed,
        apply_insert_rows-IsOrdered ctx keep t items batch ordered,
      )
