-- ===== src/Engine/Select/Distinct.antt =====
-- What SELECT DISTINCT leaves out of the lines that are found.
use super_db.Engine.Select.{Seen, row_projection_key}
use super_db.Engine.Select.Found.{distinct_lines}
use super_db.Engine.Select.Key.{row_projection_key-injective}
use super_db.Engine.Select.Scan.{Lines}
use super_db.Engine.Value.{Floats, Value}
use super_db.Engine.Order.Rearrange.{All}
use super_db.Prelude.Map.{has, put, has-put}
use mathlib.Core.Path.{subst}
use super_db.Prelude.{
  List, true, false, ◌∷◌, [], ◌≡◌, ◌≢◌, ◌⊎◌, ◌↔◌, refl, ap, ◌∙◌, sym, arith, inl, inr, Bool-cases,
  text_instance, text_eq, text_eq_iff,
}

module _ {F : Type 0} where
  abbrev pub Among : List (Value F) → Lines F → Type 0
  Among l [] = ⊥
  Among l (m ∷ ls) = (l ≡ m) ⊎ Among l ls

  abbrev pub NoRepeats : Lines F → Type 0
  NoRepeats [] = Unit
  NoRepeats (l ∷ ls) = All (λ m. m ≢ l) ls × NoRepeats ls

module _ {F : Type 0} ⦃fl : Floats F⦄ where
  distinct_lines-repeated :
      (seen : Seen) (l : List (Value F)) (ls : Lines F)
      → has seen (row_projection_key l) ≡ true
      → distinct_lines true seen (l ∷ ls) ≡ distinct_lines true seen ls
  unfolding distinct_lines
  distinct_lines-repeated seen l ls h = rw h refl

  distinct_lines-new :
      (seen : Seen) (l : List (Value F)) (ls : Lines F)
      → has seen (row_projection_key l) ≡ false
      → distinct_lines true seen (l ∷ ls)
        ≡ l ∷ distinct_lines true (put seen (row_projection_key l) tt) ls
  unfolding distinct_lines
  distinct_lines-new seen l ls h = rw h refl

  abbrev Unseen : Seen → Lines F → Type 0
  Unseen seen ls = All (λ m. has seen (row_projection_key m) ≡ false) ls

  Unseen-put :
      (seen : Seen) (l : List (Value F)) (ls : Lines F)
      → Unseen (put seen (row_projection_key l) tt) ls
      → Unseen seen ls × All (λ m. m ≢ l) ls
  Unseen-put seen l [] a = (tt, tt)
  Unseen-put seen l (m ∷ ls) (h, a) =
      let (b, c) = Unseen-put seen l ls a in
      let step = has-put seen (row_projection_key l) tt (row_projection_key m) in
      let iff = text_eq_iff (row_projection_key l) (row_projection_key m) in
      (
        (ground (arith, h, step), b),
        ((λ e. let k = ap row_projection_key e in ground (arith, h, step, iff, k)), c),
      )

  distinct_lines-Unseen : (seen : Seen) (ls : Lines F) → Unseen seen (distinct_lines true seen ls)
  unfolding distinct_lines
  distinct_lines-Unseen seen [] = tt
  distinct_lines-Unseen seen (l ∷ ls) = elim (Bool-cases (has seen (row_projection_key l))) [
    | inl h ↦ rw h (distinct_lines-Unseen seen ls)
    | inr h ↦
        rw h (
          h,
          (Unseen-put seen l _ (distinct_lines-Unseen (put seen (row_projection_key l) tt) ls)).0,
        )
  ]

  distinct_lines-NoRepeats : (seen : Seen) (ls : Lines F) → NoRepeats (distinct_lines true seen ls)
  unfolding distinct_lines
  distinct_lines-NoRepeats seen [] = tt
  distinct_lines-NoRepeats seen (l ∷ ls) = elim (Bool-cases (has seen (row_projection_key l))) [
    | inl h ↦ rw h (distinct_lines-NoRepeats seen ls)
    | inr h ↦
        let after = put seen (row_projection_key l) tt in
        rw h (
          (Unseen-put seen l _ (distinct_lines-Unseen after ls)).1,
          distinct_lines-NoRepeats after ls,
        )
  ]

  Among-distinct_lines :
      (seen : Seen) (l : List (Value F)) (ls : Lines F)
      → Among l (distinct_lines true seen ls)
      → Among l ls
  unfolding distinct_lines
  Among-distinct_lines seen l [] a = a
  Among-distinct_lines seen l (m ∷ ls) a = elim (Bool-cases (has seen (row_projection_key m))) [
    | inl h ↦
        inr
          (Among-distinct_lines seen l ls (subst (Among l) (distinct_lines-repeated seen m ls h) a))
    | inr h ↦ elim (subst (Among l) (distinct_lines-new seen m ls h) a) [
      | inl e ↦ inl e
      | inr b ↦ inr (Among-distinct_lines (put seen (row_projection_key m) tt) l ls b)
    ]
  ]

  module _ (exact : (x y : F) → fl.format x ≡ fl.format y → x ≡ y) where
    distinct_lines_complete :
        (seen : Seen) (l : List (Value F)) (ls : Lines F)
        → Among l ls
        → (has seen (row_projection_key l) ≡ true) ⊎ Among l (distinct_lines true seen ls)
    unfolding distinct_lines
    distinct_lines_complete seen l [] a = elim a [ ]
    distinct_lines_complete seen l (m ∷ ls) a =
        elim (Bool-cases (has seen (row_projection_key m))) [
          | inl h ↦ elim a [
            | inl e ↦ inl (ap (λ (x : List (Value F)). has seen (row_projection_key x)) e ∙ h)
            | inr b ↦ rw h (distinct_lines_complete seen l ls b)
          ]
          | inr h ↦ elim a [
            | inl e ↦ rw h (inr (inl e))
            | inr b ↦
                let after = put seen (row_projection_key m) tt in
                elim (distinct_lines_complete after l ls b) [
                  | inr c ↦ rw h (inr (inr c))
                  | inl s ↦
                      elim (Bool-cases (text_eq (row_projection_key m) (row_projection_key l))) [
                        | inl k ↦
                            let same =
                              (text_eq_iff (row_projection_key m) (row_projection_key l)).0 k in
                            rw h (inr (inl (row_projection_key-injective exact l m (sym same))))
                        | inr k ↦ inl (
                            ground (
                              arith,
                              s,
                              k,
                              has-put seen (row_projection_key m) tt (row_projection_key l),
                            ))
                      ]
                ]
          ]
        ]

    -- No line is left twice, and exactly the lines that there were are left, if two floats that are
    -- formatted alike are the same.
    pub distinct_lines-exact :
        (ls : Lines F)
        → NoRepeats (distinct_lines true [] ls)
          × ((l : List (Value F)) → Among l ls ↔ Among l (distinct_lines true [] ls))
    unfolding has
    distinct_lines-exact ls = (
      distinct_lines-NoRepeats [] ls,
      λ l. (
        (λ a. elim (distinct_lines_complete [] l ls a) [ inl h ↦ absurd (cc) | inr b ↦ b ]),
        Among-distinct_lines [] l ls,
      ),
    )
