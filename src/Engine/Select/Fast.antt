-- ===== src/Engine/Select/Fast.antt =====
-- The scan of the fast array finds what the rows hold.
use super_db.Engine.Outcome.{background, tick}
use super_db.Engine.Select.{Seen, add_line, reached, selected_fast_values, selected_values}
use super_db.Engine.Select.Found.{
  add_line-cases, Repeated, New, found_none, found_gone, found_there, found_skipped, cut_full,
  cut_room, distinct_lines, found_lines, tick-background,
}
use super_db.Engine.Select.Page.{cut}
use super_db.Engine.Select.Scan.{Answer, Lines, answer, fast_scan}
use super_db.Engine.Table.{FastRow, rebuild_rows, values_of}
use super_db.Engine.Value.{Column, Floats, Row, Value}
use super_db.Prelude.Map.{Map, get, get-remove, remove}
use super_db.Prelude.{
  ℕ, Text, List, Bool, Option, none, some, true, false, ◌∷◌, [], ◌++◌, ◌≡◌, refl, ap, ◌∙◌, sym,
  arith, length, Bool-cases, Option-cases, inl, inr, append-nil, append_assoc, text_instance,
  text_eq, text_eq_iff,
}

module _ {F : Type 0} where
  -- the fast array of a table that has just been rebuilt
  unfoldable pub fresh : List Column → Map Text (Row F) → List Text → List (FastRow F)
  fresh cols rows [] = []
  fresh cols rows (key ∷ order) = elim (get rows key) [
    | none ↦ fresh cols rows order
    | some row ↦ record { key = key; values = values_of cols row } ∷ fresh cols rows order
  ]

  pub fresh_gone :
      (cols : List Column) (rows : Map Text (Row F)) (key : Text) (order : List Text)
      → get rows key ≡ none
      → fresh cols rows (key ∷ order) ≡ fresh cols rows order
  unfolding fresh
  fresh_gone cols rows key order e = rw (fresh, e) refl

  pub fresh_there :
      (cols : List Column) (rows : Map Text (Row F)) (key : Text) (order : List Text) (row : Row F)
      → get rows key ≡ some row
      → fresh cols rows (key ∷ order)
        ≡ record { key = key; values = values_of cols row } ∷ fresh cols rows order
  unfolding fresh
  fresh_there cols rows key order row e = rw (fresh, e) refl

  pub rebuild_rows-fresh :
      (cols : List Column) (rows : Map Text (Row F)) (order : List Text) (fast : List (FastRow F))
      (pos : Map Text ℕ)
      → (rebuild_rows cols rows order fast pos).0 ≡ fast ++ fresh cols rows order
  unfolding rebuild_rows fresh
  rebuild_rows-fresh cols rows [] fast pos = sym (append-nil fast)
  rebuild_rows-fresh cols rows (key ∷ order) fast pos = elim (Option-cases (get rows key)) [
    | inl e ↦ rw (rebuild_rows, fresh, e) (rebuild_rows-fresh cols rows order fast pos)
    | inr (row, e) ↦
        rw (rebuild_rows, fresh, e)
          (rebuild_rows-fresh cols rows order _ _
            ∙ append_assoc fast (record { key = key; values = values_of cols row } ∷ [])
                (fresh cols rows order))
  ]

-- A row under the empty key counts as deleted for the scans of the fast array.
module _ {F : Type 0} (rows : Map Text (Row F)) (key : Text) where
  pub shown_gone : get rows key ≡ none → get (remove rows []) key ≡ none
  shown_gone e = ground (arith, e, get-remove rows [] key)

  pub shown_unkeyed : text_eq key [] ≡ true → get (remove rows []) key ≡ none
  shown_unkeyed k =
      ground (arith, k, text_eq_iff key [], text_eq_iff [] key, get-remove rows [] key)

  pub shown_there :
      (row : Row F)
      → get rows key ≡ some row
      → text_eq key [] ≡ false
      → get (remove rows []) key ≡ some row
  shown_there row e k =
      ground (arith, e, k, text_eq_iff key [], text_eq_iff [] key, get-remove rows [] key)

module _ {F : Type 0} ⦃fl : Floats F⦄ (test : List (Value F) → Option Bool) (holds : Row F → Bool)
    (cols : List Column) (names : List Text) (columns : Map Text ℕ) (rows : Map Text (Row F))
    (same_test : (row : Row F) → test (values_of cols row) ≡ some (holds row))
    (same_line : (row : Row F)
      → selected_fast_values (values_of cols row) names columns ≡ selected_values row names)
    (distinct : Bool) (most : Option ℕ) where
  abbrev shown : Map Text (Row F)
  shown = remove rows []

  abbrev pub Finds : List Text → Type 0
  Finds order =
      (n : ℕ) (seen : Seen) (acc : Lines F)
      → reached most (length acc) ≡ false
      → fast_scan background test names columns distinct most (fresh cols rows order) n seen acc
        ≡ answer
            (cut most (acc ++ distinct_lines distinct seen (found_lines holds names shown order)))

  scan_skip :
      (r : FastRow F) (fast : List (FastRow F)) (n : ℕ) (seen : Seen) (acc : Lines F)
      → text_eq r.key [] ≡ false
      → test r.values ≡ some false
      → fast_scan background test names columns distinct most (r ∷ fast) n seen acc
        ≡ fast_scan background test names columns distinct most fast (tick background n).0 seen acc
  unfolding fast_scan
  scan_skip r fast n seen acc k h = rw (fast_scan, tick-background n, k, h) refl

  scan_stop :
      (r : FastRow F) (fast : List (FastRow F)) (n : ℕ) (seen : Seen) (acc : Lines F)
      (next : Seen × Lines F)
      → text_eq r.key [] ≡ false
      → test r.values ≡ some true
      → add_line distinct seen acc (selected_fast_values r.values names columns) ≡ next
      → reached most (length next.1) ≡ true
      → fast_scan background test names columns distinct most (r ∷ fast) n seen acc ≡ answer next.1
  unfolding fast_scan
  scan_stop r fast n seen acc next k h a full =
      rw (fast_scan, tick-background n, k, h, a, full) (ap (λ (x : Seen × Lines F). answer x.1) a)

  scan_more :
      (r : FastRow F) (fast : List (FastRow F)) (n : ℕ) (seen : Seen) (acc : Lines F)
      (next : Seen × Lines F)
      → text_eq r.key [] ≡ false
      → test r.values ≡ some true
      → add_line distinct seen acc (selected_fast_values r.values names columns) ≡ next
      → reached most (length next.1) ≡ false
      → fast_scan background test names columns distinct most (r ∷ fast) n seen acc
        ≡ fast_scan background test names columns distinct most fast
            (tick background n).0
            next.0
            next.1
  unfolding fast_scan
  scan_more r fast n seen acc next k h a room =
      rw (fast_scan, tick-background n, k, h, a, room)
        (ap
          (λ (x : Seen × Lines F).
            fast_scan background test names columns distinct most fast (tick background n).0 x.0
              x.1)
          a)

  module _ (key : Text) (order : List Text) (row : Row F) (k : text_eq key [] ≡ false)
      (h : holds row ≡ true) (rest : Finds order) (n : ℕ) (seen : Seen) (acc : Lines F)
      (room : reached most (length acc) ≡ false) where
    abbrev here : FastRow F
    here = record { key = key; values = values_of cols row }

    abbrev line : List (Value F)
    line = selected_values row names

    abbrev Emits : Type 0
    Emits =
        fast_scan background test names columns distinct most (here ∷ fresh cols rows order) n seen
          acc
        ≡ answer (
            cut most
              (acc ++ distinct_lines distinct seen (line ∷ found_lines holds names shown order)))

    emit_repeated : Repeated distinct seen line → Emits
    emit_repeated (a, d) =
        scan_more here (fresh cols rows order) n seen acc (seen, acc) k (same_test row ∙ ap some h)
          (ap (add_line distinct seen acc) (same_line row) ∙ a acc) room
        ∙ rest (tick background n).0 seen acc room
        ∙ ap (λ (ls : Lines F). answer (cut most (acc ++ ls)))
            (sym (d (found_lines holds names shown order)))

    emit_new : New distinct seen line → Emits
    emit_new (after, a, d) =
        let added = ap (add_line distinct seen acc) (same_line row) ∙ a acc in
        let met = same_test row ∙ ap some h in
        let found = found_lines holds names shown order in
        let same = ap (λ (ls : Lines F). answer (cut most (acc ++ ls))) (sym (d found)) in
        elim (Bool-cases (reached most (length (acc ++ (line ∷ []))))) [
          | inl full ↦
              scan_stop here (fresh cols rows order) n seen acc (after, acc ++ (line ∷ [])) k met
                added full
              ∙ ap answer
                  (sym (cut_full most acc (distinct_lines distinct after found) line room full))
              ∙ same
          | inr more ↦
              scan_more here (fresh cols rows order) n seen acc (after, acc ++ (line ∷ [])) k met
                added more
              ∙ rest (tick background n).0 after (acc ++ (line ∷ [])) more
              ∙ ap (λ (ls : Lines F). answer (cut most ls))
                  (append_assoc acc (line ∷ []) (distinct_lines distinct after found))
              ∙ same
        ]

    emit : Emits
    emit = elim (add_line-cases distinct seen line) [ inl r ↦ emit_repeated r | inr r ↦ emit_new r ]

  abbrev scan_of : List (FastRow F) → ℕ → Seen → Lines F → Answer (Lines F)
  scan_of fast n seen acc = fast_scan background test names columns distinct most fast n seen acc

  abbrev answer_of : Seen → Lines F → Lines F → Answer (Lines F)
  answer_of seen acc found = answer (cut most (acc ++ distinct_lines distinct seen found))

  fast_scan-done : Finds []
  unfolding fast_scan fresh
  fast_scan-done n seen acc room = ap answer (
      sym (cut_room most acc room)
      ∙ ap (cut most) (
          sym (append-nil acc)
          ∙ ap (λ (ls : Lines F). acc ++ ls) (sym (found_none holds names shown distinct seen))))

  scan_unkeyed :
      (r : FastRow F) (fast : List (FastRow F)) (n : ℕ) (seen : Seen) (acc : Lines F)
      → text_eq r.key [] ≡ true
      → scan_of (r ∷ fast) n seen acc ≡ scan_of fast (tick background n).0 seen acc
  unfolding fast_scan
  scan_unkeyed r fast n seen acc k = rw (fast_scan, tick-background n, k) refl

  scan_keyed :
      (key : Text) (order : List Text) (row : Row F)
      → get rows key ≡ some row
      → text_eq key [] ≡ false
      → Finds order
      → (n : ℕ) (seen : Seen) (acc : Lines F) → reached most (length acc) ≡ false
      → scan_of
          (record { key = key; values = values_of cols row } ∷ fresh cols rows order)
          n
          seen
          acc
        ≡ answer_of seen acc (found_lines holds names shown (key ∷ order))
  scan_keyed key order row e k rest n seen acc room =
      let there = shown_there rows key row e k in
      elim (Bool-cases (holds row)) [
        | inl h ↦
            emit key order row k h rest n seen acc room
            ∙ ap (answer_of seen acc) (sym (found_there holds names shown key order row there h))
        | inr h ↦
            scan_skip (record { key = key; values = values_of cols row }) (fresh cols rows order) n
              seen acc k (same_test row ∙ ap some h)
            ∙ rest (tick background n).0 seen acc room
            ∙ ap (answer_of seen acc) (sym (found_skipped holds names shown key order row there h))
      ]

  -- The scan adds to what it has emitted the lines that are new, as far as the cap allows.
  pub fast_scan-found : (order : List Text) → Finds order
  fast_scan-found [] n seen acc room = fast_scan-done n seen acc room
  fast_scan-found (key ∷ order) n seen acc room = elim (Option-cases (get rows key)) [
    | inl e ↦
        ap (λ (fast : List (FastRow F)). scan_of fast n seen acc) (fresh_gone cols rows key order e)
        ∙ fast_scan-found order n seen acc room
        ∙ ap (answer_of seen acc)
            (sym (found_gone holds names shown key order (shown_gone rows key e)))
    | inr (row, e) ↦
        ap (λ (fast : List (FastRow F)). scan_of fast n seen acc)
          (fresh_there cols rows key order row e)
        ∙ elim (Bool-cases (text_eq key [])) [
          | inl k ↦
              scan_unkeyed (record { key = key; values = values_of cols row })
                (fresh cols rows order) n seen acc k
              ∙ fast_scan-found order (tick background n).0 seen acc room
              ∙ ap (answer_of seen acc)
                  (sym (found_gone holds names shown key order (shown_unkeyed rows key k)))
          | inr k ↦ scan_keyed key order row e k (fast_scan-found order) n seen acc room
        ]
  ]
