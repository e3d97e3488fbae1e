-- ===== src/Engine/Select/Ordered.antt =====
-- The scan of the order collects the keys of the rows that a SELECT is to find.
use super_db.Engine.Outcome.{background, tick}
use super_db.Engine.Select.{Seen, reached, selected_values}
use super_db.Engine.Select.Found.{
  cut_full, cut_room, distinct_lines, found_gone, found_lines, found_none, found_skipped,
  found_there, tick-background,
}
use super_db.Engine.Select.Page.{cut}
use super_db.Engine.Select.Scan.{Lines, answer, dedup_key, order_scan}
use super_db.Engine.Table.{Table}
use super_db.Engine.Value.{Floats, Row, Value}
use super_db.Prelude.Map.{get}
use super_db.Prelude.{
  ℕ, Text, List, Bool, Option, none, some, true, false, ◌∷◌, [], ◌++◌, ◌≡◌, refl, ap, ◌∙◌, sym,
  length, map, Bool-cases, Option-cases, inl, inr, append-nil, append_assoc, text_instance,
}
use super_db.Engine.Select.Dedup.{line, line-there, dedup_key-cases, length-map, map-append_one}

module _ {F : Type 0} ⦃fl : Floats F⦄ (t : Table F) (no_fast : t.fast ≡ []) (names : List Text)
    (test : Row F → Bool) (distinct : Bool) (most : Option ℕ) where
  abbrev pub line_at_key : Text → List (Value F)
  line_at_key = line t no_fast names

  abbrev pub Gathers : List Text → Type 0
  Gathers order =
      (n : ℕ) (seen : Seen) (acc : List Text)
      → reached most (length acc) ≡ false
      → (keys : List Text) × (n' : ℕ) × (order_scan background test t names distinct most order n
            seen acc
          ≡ answer (keys, n'))
        × (map line_at_key keys
            ≡ cut most (
                map line_at_key acc
                ++ distinct_lines distinct seen (found_lines test names t.rows order)))

  collect_done : Gathers []
  unfolding order_scan
  collect_done n seen acc room = (
    acc,
    n,
    refl,
    sym (
          cut_room most (map line_at_key acc)
            (ap (reached most) (length-map line_at_key acc) ∙ room))
        ∙ ap (cut most) (
            sym (append-nil (map line_at_key acc))
            ∙ ap (λ (ls : Lines F). map line_at_key acc ++ ls)
                (sym (found_none test names t.rows distinct seen))),
  )

  -- what the scan gives from `order` on, if its first key changes neither what is seen nor the lines
  pass :
      (key : Text) (order : List Text) (n m : ℕ) (seen : Seen) (acc : List Text)
      → reached most (length acc) ≡ false
      → Gathers order
      → order_scan background test t names distinct most (key ∷ order) n seen acc
        ≡ order_scan background test t names distinct most order m seen acc
      → distinct_lines distinct seen (found_lines test names t.rows (key ∷ order))
        ≡ distinct_lines distinct seen (found_lines test names t.rows order)
      → (keys : List Text) × (n' : ℕ) × (order_scan background test t names distinct most
            (key ∷ order)
            n
            seen
            acc
          ≡ answer (keys, n'))
        × (map line_at_key keys
            ≡ cut most (
                map line_at_key acc
                ++ distinct_lines distinct seen (found_lines test names t.rows (key ∷ order))))
  pass key order n m seen acc room rest step same =
      let (keys, n', e, f) = rest m seen acc room in
      (
        keys,
        n',
        step ∙ e,
        f ∙ ap (λ (ls : Lines F). cut most (map line_at_key acc ++ ls)) (sym same),
      )

  scan_gone :
      (key : Text) (order : List Text) (n : ℕ) (seen : Seen) (acc : List Text)
      → get t.rows key ≡ none
      → order_scan background test t names distinct most (key ∷ order) n seen acc
        ≡ order_scan background test t names distinct most order (tick background n).0 seen acc
  unfolding order_scan
  scan_gone key order n seen acc e = rw (order_scan, tick-background n, e) refl

  scan_skipped :
      (key : Text) (order : List Text) (n : ℕ) (seen : Seen) (acc : List Text) (row : Row F)
      → get t.rows key ≡ some row
      → test row ≡ false
      → order_scan background test t names distinct most (key ∷ order) n seen acc
        ≡ order_scan background test t names distinct most order (tick background n).0 seen acc
  unfolding order_scan
  scan_skipped key order n seen acc row e h = rw (order_scan, tick-background n, e, h) refl

  scan_repeated :
      (key : Text) (order : List Text) (n : ℕ) (seen : Seen) (acc : List Text) (row : Row F)
      → get t.rows key ≡ some row
      → test row ≡ true
      → dedup_key distinct t names seen key ≡ (seen, true)
      → order_scan background test t names distinct most (key ∷ order) n seen acc
        ≡ order_scan background test t names distinct most order (tick background n).0 seen acc
  unfolding order_scan
  scan_repeated key order n seen acc row e h d =
      rw (order_scan, tick-background n, e, h, ap (λ (x : Seen × Bool). x.1) d)
        (ap
          (λ (x : Seen × Bool).
            order_scan background test t names distinct most order (tick background n).0 x.0 acc)
          d)

  pub scan_full :
      (key : Text) (order : List Text) (n : ℕ) (seen after : Seen) (acc : List Text) (row : Row F)
      → get t.rows key ≡ some row
      → test row ≡ true
      → dedup_key distinct t names seen key ≡ (after, false)
      → reached most (length (acc ++ (key ∷ []))) ≡ true
      → order_scan background test t names distinct most (key ∷ order) n seen acc
        ≡ answer (acc ++ (key ∷ []), (tick background n).0)
  unfolding order_scan
  scan_full key order n seen after acc row e h d full =
      rw (order_scan, tick-background n, e, h, ap (λ (x : Seen × Bool). x.1) d, full) refl

  scan_more :
      (key : Text) (order : List Text) (n : ℕ) (seen after : Seen) (acc : List Text) (row : Row F)
      → get t.rows key ≡ some row
      → test row ≡ true
      → dedup_key distinct t names seen key ≡ (after, false)
      → reached most (length (acc ++ (key ∷ []))) ≡ false
      → order_scan background test t names distinct most (key ∷ order) n seen acc
        ≡ order_scan background test t names distinct most order
            (tick background n).0
            after
            (acc ++ (key ∷ []))
  unfolding order_scan
  scan_more key order n seen after acc row e h d room =
      rw (order_scan, tick-background n, e, h, ap (λ (x : Seen × Bool). x.1) d, room)
        (ap
          (λ (x : Seen × Bool).
            order_scan background test t names distinct most order (tick background n).0 x.0
              (acc ++ (key ∷ [])))
          d)

  module _ (key : Text) (order : List Text) (row : Row F) (e : get t.rows key ≡ some row)
      (h : test row ≡ true) (rest : Gathers order) (n : ℕ) (seen after : Seen) (acc : List Text)
      (room : reached most (length acc) ≡ false)
      (d : dedup_key distinct t names seen key ≡ (after, false))
      (g : (ls : Lines F)
        → distinct_lines distinct seen (selected_values row names ∷ ls)
          ≡ selected_values row names ∷ distinct_lines distinct after ls) where
    abbrev found : Lines F
    found = found_lines test names t.rows order

    -- the lines of the keys so far, with the new one
    lines_with :
        map line_at_key (acc ++ (key ∷ []))
        ≡ map line_at_key acc ++ (selected_values row names ∷ [])
    lines_with =
        map-append_one line_at_key acc key
        ∙ ap (λ (l : List (Value F)). map line_at_key acc ++ (l ∷ []))
            (line-there t no_fast names key row e)

    spread :
        cut most (
          map line_at_key acc
          ++ distinct_lines distinct seen (found_lines test names t.rows (key ∷ order)))
        ≡ cut most (
            map line_at_key acc
            ++ (selected_values row names ∷ distinct_lines distinct after found))
    spread =
        ap (λ (ls : Lines F). cut most (map line_at_key acc ++ ls))
          (ap (distinct_lines distinct seen) (found_there test names t.rows key order row e h)
            ∙ g found)

    abbrev Collected : Type 0
    Collected =
        (keys : List Text) × (n' : ℕ) × (order_scan background test t names distinct most
            (key ∷ order) n seen acc
          ≡ answer (keys, n'))
        × (map line_at_key keys
            ≡ cut most (
                map line_at_key acc
                ++ distinct_lines distinct seen (found_lines test names t.rows (key ∷ order))))

    collect_last : reached most (length (acc ++ (key ∷ []))) ≡ true → Collected
    collect_last full = (
      acc ++ (key ∷ []),
      (tick background n).0,
      scan_full key order n seen after acc row e h d full,
      lines_with
          ∙ sym (
              cut_full most (map line_at_key acc) (distinct_lines distinct after found)
                (selected_values row names) (ap (reached most) (length-map line_at_key acc) ∙ room)
                (ap (reached most)
                    (ap length (sym lines_with) ∙ length-map line_at_key (acc ++ (key ∷ [])))
                  ∙ full))
          ∙ sym spread,
    )

    collect_on : reached most (length (acc ++ (key ∷ []))) ≡ false → Collected
    collect_on more =
        let (keys, n', s, f) = rest (tick background n).0 after (acc ++ (key ∷ [])) more in
        (
          keys,
          n',
          scan_more key order n seen after acc row e h d more ∙ s,
          f
              ∙ ap (λ (ls : Lines F). cut most (ls ++ distinct_lines distinct after found))
                  lines_with
              ∙ ap (cut most) (
                  append_assoc (map line_at_key acc) (selected_values row names ∷ [])
                    (distinct_lines distinct after found))
              ∙ sym spread,
        )

    collect : Collected
    collect = elim (Bool-cases (reached most (length (acc ++ (key ∷ []))))) [
      | inl full ↦ collect_last full
      | inr more ↦ collect_on more
    ]

  -- The scan collects keys whose lines are those that are new, as far as the cap allows.
  pub order_scan_collects : (order : List Text) → Gathers order
  order_scan_collects [] n seen acc room = collect_done n seen acc room
  order_scan_collects (key ∷ order) n seen acc room = elim (Option-cases (get t.rows key)) [
    | inl e ↦
        pass key order n (tick background n).0 seen acc room (order_scan_collects order)
          (scan_gone key order n seen acc e)
          (ap (distinct_lines distinct seen) (found_gone test names t.rows key order e))
    | inr (row, e) ↦ elim (Bool-cases (test row)) [
      | inr h ↦
          pass key order n (tick background n).0 seen acc room (order_scan_collects order)
            (scan_skipped key order n seen acc row e h)
            (ap (distinct_lines distinct seen) (found_skipped test names t.rows key order row e h))
      | inl h ↦ elim (dedup_key-cases t no_fast names distinct seen key row e) [
        | inl (d, g) ↦
            pass key order n (tick background n).0 seen acc room (order_scan_collects order)
              (scan_repeated key order n seen acc row e h d)
              (ap (distinct_lines distinct seen) (found_there test names t.rows key order row e h)
                ∙ g (found_lines test names t.rows order))
        | inr (after, d, g) ↦
            collect key order row e h (order_scan_collects order) n seen after acc room d g
      ]
    ]
  ]
