-- ===== src/Engine/Condition/Parse/Whole.antt =====
-- splitLogical and splitConditionTerm on a column, an equals sign and a quoted text.
use mathlib.Core.List.{reverse_aux, reverse-cons, reverse-reverse}
use super_db.Strings.{double_quotes, trim_space}
use super_db.Engine.Bind.{literal}
use super_db.Engine.Fold.{fold_equal_at, fold_equal_at_other, upper, identifier_byte, quote_at}
use super_db.Engine.Condition.Parse.{
  split_logical_from, is_between_operator, split_term_from, split_condition_term,
}
use super_db.Engine.Condition.{op_eq}
use super_db.Prelude.{
  ℕ, Text, List, Bool, Option, none, some, true, false, ◌∷◌, [], ◌++◌, ◌≡◌, ◌≢◌, ◌<◌, refl, ap, ◌∙◌,
  arith, reverse, append_assoc, ltb, length, Bool-cases, ◌==◌, inl, inr, if◌then◌else◌, ◌&&◌, ◌+◌,
}

-- The bytes of a column's name
abbrev pub IsName : Text → Type 0
IsName [] = Unit
IsName (c ∷ s) = (identifier_byte c ≡ true) × (c < 128) × IsName s

upper_space : (c : ℕ) → c ≢ 32 → (upper c == 32) ≡ false
unfolding upper
upper_space c h = ground arith

name_space : (c : ℕ) → identifier_byte c ≡ true → c ≢ 32
unfolding identifier_byte
name_space c h = ground (arith, h)

name_quote : (c : ℕ) → identifier_byte c ≡ true → (c == 39) ≡ false
unfolding identifier_byte
name_quote c h = ground (arith, h)

module _ (b : ℕ) (more : Text) (is_and : Bool) where
  abbrev needle : Text
  needle = 32 ∷ b ∷ more

  abbrev from : Bool → ℕ → Option ℕ → Text → Text → List Text
  from quote pending before field s =
      split_logical_from needle is_and 0 false quote pending before field s

  -- the loop comes to its end, and nothing is cut
  abbrev Whole : Bool → Text → Type 0
  Whole quote t =
      (pending : ℕ) (before : Option ℕ) (field : Text)
      → from quote pending before field t ≡ trim_space (reverse field ++ t) ∷ []

  moved : (c : ℕ) (field s : Text) → reverse (c ∷ field) ++ s ≡ reverse field ++ (c ∷ s)
  moved c field s =
      ap (λ (u : Text). u ++ s) (reverse-cons c field) ∙ append_assoc (reverse field) (c ∷ []) s

  -- a byte that is passed over
  Whole-step :
      (quote quote' : Bool) (c : ℕ) (s : Text)
      → ((pending : ℕ) (before : Option ℕ) (field : Text)
          → ltb (length (c ∷ s)) (length needle) ≡ false
          → (p : ℕ) × (from quote pending before field (c ∷ s)
              ≡ from quote' p (some c) (c ∷ field) s))
      → Whole quote' s
      → Whole quote (c ∷ s)
  unfolding split_logical_from
  Whole-step quote quote' c s step rest pending before field =
      elim (Bool-cases (ltb (length (c ∷ s)) (length needle))) [
        | inl h ↦ rw (split_logical_from, h) refl
        | inr h ↦
            let (p, e) = step pending before field h in
            e ∙ rest p (some c) (c ∷ field) ∙ ap (λ (u : Text). trim_space u ∷ []) (moved c field s)
      ]

  no_needle : (c : ℕ) (s : Text) → c ≢ 32 → fold_equal_at (c ∷ s) needle ≡ false
  no_needle c s h = fold_equal_at_other c 32 s (b ∷ more) (upper_space c h)

  Whole-plain :
      (c : ℕ) (s : Text) → c ≢ 32 → (c == 39) ≡ false → Whole false s → Whole false (c ∷ s)
  unfolding split_logical_from
  Whole-plain c s space quote = Whole-step false false c s (λ pending before field h. (
    if is_and && is_between_operator before (c ∷ s) then pending + 1 else pending,
    rw (split_logical_from, h, quote, no_needle c s space) refl,
  ))

  Whole-open : (s : Text) → Whole true s → Whole false (39 ∷ s)
  unfolding split_logical_from
  Whole-open s =
      Whole-step false true 39 s
        (λ pending before field h. (pending, rw (split_logical_from, h) refl))

  Whole-quoted : (c : ℕ) (s : Text) → (c == 39) ≡ false → Whole true s → Whole true (c ∷ s)
  unfolding split_logical_from
  Whole-quoted c s quote =
      Whole-step true true c s
        (λ pending before field h. (pending, rw (split_logical_from, h, quote) refl))

  Whole-pair : (s : Text) → Whole true s → Whole true (39 ∷ 39 ∷ s)
  unfolding split_logical_from quote_at
  Whole-pair s rest pending before field =
      elim (Bool-cases (ltb (length (39 ∷ 39 ∷ s)) (length needle))) [
        | inl h ↦ rw (split_logical_from, h) refl
        | inr h ↦
            rw (split_logical_from, h)
              (rest pending (some 39) (39 ∷ 39 ∷ field)
                ∙ ap (λ (u : Text). trim_space u ∷ [])
                    (moved 39 (39 ∷ field) s ∙ moved 39 field (39 ∷ s)))
      ]

  Whole-close : Whole true (39 ∷ [])
  unfolding split_logical_from
  Whole-close pending before field =
      let short : ltb 1 (length needle) ≡ true = ground arith in rw (split_logical_from, short) refl

  Whole-body : (t : Text) → Whole true (double_quotes t ++ (39 ∷ []))
  unfolding double_quotes
  Whole-body [] = Whole-close
  Whole-body (c ∷ t) = elim (Bool-cases (c == 39)) [
    | inl h ↦ rw h (Whole-pair (double_quotes t ++ (39 ∷ [])) (Whole-body t))
    | inr h ↦ rw h (Whole-quoted c (double_quotes t ++ (39 ∷ [])) h (Whole-body t))
  ]

  Whole-literal : (t : Text) → Whole false (literal t)
  unfolding literal
  Whole-literal t = Whole-open (double_quotes t ++ (39 ∷ [])) (Whole-body t)

  Whole-name : (name : Text) (s : Text) → IsName name → Whole false s → Whole false (name ++ s)
  Whole-name [] s h rest = rest
  Whole-name (c ∷ name) s (i, small, h) rest =
      Whole-plain c (name ++ s) (name_space c i) (name_quote c i) (Whole-name name s h rest)

  -- No keyword is found in `name = 'text'`, whatever the text.
  pub split_logical-equation :
      (name t : Text)
      → IsName name
      → split_logical_from needle is_and 0 false false 0 none [] (name ++ (61 ∷ literal t))
        ≡ trim_space (name ++ (61 ∷ literal t)) ∷ []
  split_logical-equation name t h =
      Whole-name name (61 ∷ literal t) h
        (Whole-plain 61 (literal t) (ground arith) refl (Whole-literal t)) 0 none []

split_term_name :
    (c : ℕ) (lhs s : Text)
    → identifier_byte c ≡ true
    → split_term_from false false lhs (c ∷ s) ≡ split_term_from false false (c ∷ lhs) s
unfolding split_term_from identifier_byte
split_term_name c lhs s h = ground (arith, h)

split_term_names :
    (name lhs s : Text)
    → IsName name
    → split_term_from false false lhs (name ++ s)
      ≡ split_term_from false false (reverse_aux name lhs) s
split_term_names [] lhs s h = refl
split_term_names (c ∷ name) lhs s (i, small, h) =
    split_term_name c lhs (name ++ s) i ∙ split_term_names name (c ∷ lhs) s h

split_term_equals :
    (lhs s : Text) → split_term_from false false lhs (61 ∷ s) ≡ some (reverse lhs, op_eq, s)
unfolding split_term_from
split_term_equals lhs s = refl

-- The first equals sign behind the name divides it from the text.
pub split_condition_term-equation :
    (name s : Text) → IsName name → split_condition_term (name ++ (61 ∷ s)) ≡ some (name, op_eq, s)
unfolding split_condition_term
split_condition_term-equation name s h =
    split_term_names name [] (61 ∷ s) h
    ∙ split_term_equals (reverse_aux name []) s
    ∙ ap (λ (u : Text). some (u, op_eq, s)) (reverse-reverse name)
