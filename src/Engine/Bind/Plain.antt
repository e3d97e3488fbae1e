-- ===== src/Engine/Bind/Plain.antt =====
-- The scans of bind.go as scans that only count quotes: a doubled quote opens and closes a literal
-- again, so that looking ahead for it makes no difference.
use super_db.Engine.Value.{Floats}
use super_db.Prelude.{
  ℕ, Text, Bool, ◌≡◌, List, false, ◌++◌, ◌∷◌, append_assoc, arith, if◌then◌else◌, ◌+◌, not, refl,
  ◌==◌, [], ◌&&◌, true, append-nil, ◌∙◌, ap, Bool-cases, sym, inl, inr,
}
use super_db.Engine.Bind.{
  Param, Result, bind_from, has_placeholder, has_placeholder_from, ok, placeholder_count,
  placeholder_count_from, quote_next, err, quote, mark, too_many_params, too_few_params,
  format_param,
}

-- is there a mark outside quotes
abbrev pub marked : Bool → Text → Bool
marked q [] = false
marked q (c ∷ s) =
    if c == quote then marked (not q) s else if c == mark && not q then true else marked q s

-- how many marks there are outside quotes
abbrev pub marks : Bool → Text → ℕ
marks q [] = 0
marks q (c ∷ s) =
    if c == quote then marks (not q) s else if c == mark && not q then 1 + marks q s else marks q s

has_placeholder_from-marked : (q : Bool) (s : Text) → has_placeholder_from false q s ≡ marked q s
unfolding has_placeholder_from quote_next
has_placeholder_from-marked q [] = refl
has_placeholder_from-marked q (c ∷ []) = ground arith
has_placeholder_from-marked q (c ∷ d ∷ s) = ground (
  arith,
  has_placeholder_from-marked q s,
  has_placeholder_from-marked q (d ∷ s),
  has_placeholder_from-marked (not q) (d ∷ s),
)

placeholder_count_from-marks :
    (q : Bool) (s : Text) (n : ℕ) → placeholder_count_from false q s n ≡ n + marks q s
unfolding placeholder_count_from quote_next
placeholder_count_from-marks q [] n = omega arith
placeholder_count_from-marks q (c ∷ []) n = ground arith
placeholder_count_from-marks q (c ∷ d ∷ s) n = ground (
  arith,
  placeholder_count_from-marks q s n,
  placeholder_count_from-marks q (d ∷ s) n,
  placeholder_count_from-marks q (d ∷ s) (n + 1),
  placeholder_count_from-marks (not q) (d ∷ s) n,
)

pub has_placeholder_lem : (s : Text) → has_placeholder s ≡ marked false s
unfolding has_placeholder
has_placeholder_lem s = has_placeholder_from-marked false s

pub placeholder_count_lem : (s : Text) → placeholder_count s ≡ marks false s
unfolding placeholder_count
placeholder_count_lem s = omega (arith, placeholder_count_from-marks false s 0)

abbrev pub prepend : Text → Result Text → Result Text
prepend t (ok u) = ok (t ++ u)
prepend t (err e) = err e

prepend-prepend : (s t : Text) (r : Result Text) → prepend s (prepend t r) ≡ prepend (s ++ t) r
prepend-prepend s t (ok u) = rw (append_assoc s t u)
prepend-prepend s t (err e) = refl

module _ {F : Type 0} ⦃fl : Floats F⦄ where
  -- the text that binding writes
  unfoldable pub plain : Bool → Text → List (Param F) → Result Text
  plain q [] [] = ok []
  plain q [] (a ∷ rest) = err too_many_params
  plain q (c ∷ s) args = elim (c == quote) [
    | true ↦ prepend (c ∷ []) (plain (not q) s args)
    | false ↦ elim (c == mark && not q) [
      | true ↦ elim args [
        | [] ↦ err too_few_params
        | a ∷ rest ↦ prepend (format_param a) (plain q s rest)
      ]
      | false ↦ prepend (c ∷ []) (plain q s args)
    ]
  ]

  bind_from-pair :
      (c d : ℕ) (s : Text) (args : List (Param F)) (out : Text)
      → (c == quote) ≡ true
      → (d == quote) ≡ true
      → bind_from false true (c ∷ d ∷ s) args out
        ≡ bind_from false true s args (out ++ (quote ∷ quote ∷ []))
  unfolding bind_from quote_next
  bind_from-pair c d s args out hc hd = ground arith

  bind_from-toggle :
      (q : Bool) (c : ℕ) (s : Text) (args : List (Param F)) (out : Text)
      → (c == quote) ≡ true
      → (q && quote_next s) ≡ false
      → bind_from false q (c ∷ s) args out ≡ bind_from false (not q) s args (out ++ (c ∷ []))
  unfolding bind_from
  bind_from-toggle q c s args out h single = ground arith

  bind_from-mark :
      (q : Bool) (c : ℕ) (s : Text) (a : Param F) (rest : List (Param F)) (out : Text)
      → (c == quote) ≡ false
      → (c == mark && not q) ≡ true
      → bind_from false q (c ∷ s) (a ∷ rest) out ≡ bind_from false q s rest (out ++ format_param a)
  unfolding bind_from
  bind_from-mark q c s a rest out h m = ground arith

  bind_from-other :
      (q : Bool) (c : ℕ) (s : Text) (args : List (Param F)) (out : Text)
      → (c == quote) ≡ false
      → (c == mark && not q) ≡ false
      → bind_from false q (c ∷ s) args out ≡ bind_from false q s args (out ++ (c ∷ []))
  unfolding bind_from
  bind_from-other q c s args out h m = ground arith

  plain-toggle :
      (q : Bool) (c : ℕ) (s : Text) (args : List (Param F))
      → (c == quote) ≡ true
      → plain q (c ∷ s) args ≡ prepend (c ∷ []) (plain (not q) s args)
  unfolding plain
  plain-toggle q c s args h = ground arith

  plain-mark :
      (q : Bool) (c : ℕ) (s : Text) (a : Param F) (rest : List (Param F))
      → (c == quote) ≡ false
      → (c == mark && not q) ≡ true
      → plain q (c ∷ s) (a ∷ rest) ≡ prepend (format_param a) (plain q s rest)
  unfolding plain
  plain-mark q c s a rest h m = ground arith

  plain-other :
      (q : Bool) (c : ℕ) (s : Text) (args : List (Param F))
      → (c == quote) ≡ false
      → (c == mark && not q) ≡ false
      → plain q (c ∷ s) args ≡ prepend (c ∷ []) (plain q s args)
  unfolding plain
  plain-other q c s args h m = ground arith

  -- a placeholder, by the fact at the bytes behind it
  placeholder-plain :
      (q : Bool) (c : ℕ) (s : Text) (args : List (Param F)) (out : Text)
      → (c == quote) ≡ false
      → (c == mark && not q) ≡ true
      → ((left : List (Param F)) (done : Text)
          → bind_from false q s left done ≡ prepend done (plain q s left))
      → bind_from false q (c ∷ s) args out ≡ prepend out (plain q (c ∷ s) args)
  placeholder-plain q c s [] out h m ih = unfold plain bind_from in ground arith
  placeholder-plain q c s (a ∷ rest) out h m ih =
      bind_from-mark q c s a rest out h m
      ∙ ih rest (out ++ format_param a)
      ∙ sym (prepend-prepend out (format_param a) (plain q s rest))
      ∙ ap (prepend out) (sym (plain-mark q c s a rest h m))

  -- a byte that is not the first of a pair, by the fact at the bytes behind it
  step-plain :
      (q : Bool) (c : ℕ) (s : Text) (args : List (Param F)) (out : Text)
      → (c == quote ≡ true → (q && quote_next s) ≡ false)
      → ((p : Bool) (left : List (Param F)) (done : Text)
          → bind_from false p s left done ≡ prepend done (plain p s left))
      → bind_from false q (c ∷ s) args out ≡ prepend out (plain q (c ∷ s) args)
  step-plain q c s args out single ih = elim (Bool-cases (c == quote)) [
    | inl h ↦
        bind_from-toggle q c s args out h (single h)
        ∙ ih (not q) args (out ++ (c ∷ []))
        ∙ sym (prepend-prepend out (c ∷ []) (plain (not q) s args))
        ∙ ap (prepend out) (sym (plain-toggle q c s args h))
    | inr h ↦ elim (Bool-cases (c == mark && not q)) [
      | inl m ↦ placeholder-plain q c s args out h m (λ left done. ih q left done)
      | inr m ↦
          bind_from-other q c s args out h m
          ∙ ih q args (out ++ (c ∷ []))
          ∙ sym (prepend-prepend out (c ∷ []) (plain q s args))
          ∙ ap (prepend out) (sym (plain-other q c s args h m))
    ]
  ]

  pair-plain :
      (c d : ℕ) (s : Text) (args : List (Param F)) (out : Text)
      → (c == quote) ≡ true
      → (d == quote) ≡ true
      → ((left : List (Param F)) (done : Text)
          → bind_from false true s left done ≡ prepend done (plain true s left))
      → bind_from false true (c ∷ d ∷ s) args out ≡ prepend out (plain true (c ∷ d ∷ s) args)
  pair-plain c d s args out hc hd ih =
      let ec : c ≡ quote = ground arith in
      let ed : d ≡ quote = ground arith in
      bind_from-pair c d s args out hc hd
      ∙ ih args (out ++ (quote ∷ quote ∷ []))
      ∙ rw (ec, ed)
          (ap (λ t. prepend t (plain true s args))
              (sym (append_assoc out (quote ∷ []) (quote ∷ [])))
            ∙ sym (prepend-prepend (out ++ (quote ∷ [])) (quote ∷ []) (plain true s args))
            ∙ sym (prepend-prepend out (quote ∷ []) (prepend (quote ∷ []) (plain true s args)))
            ∙ ap (λ t. prepend out (prepend (quote ∷ []) t))
                (sym (plain-toggle false quote s args refl))
            ∙ ap (prepend out) (sym (plain-toggle true quote (quote ∷ s) args refl)))

  pub bind_from-plain :
      (q : Bool) (s : Text) (args : List (Param F)) (out : Text)
      → bind_from false q s args out ≡ prepend out (plain q s args)
  bind_from-plain q [] [] out = unfold bind_from plain in rw (append-nil out) refl
  bind_from-plain q [] (a ∷ rest) out = unfold bind_from plain in refl
  bind_from-plain q (c ∷ []) args out =
      step-plain q c [] args out (λ h. unfold quote_next in ground arith)
        (λ p left done. bind_from-plain p [] left done)
  bind_from-plain true (c ∷ d ∷ s) args out = elim (Bool-cases (c == quote && d == quote)) [
    | inl h ↦
        pair-plain c d s args out (ground arith) (ground arith)
          (λ left done. bind_from-plain true s left done)
    | inr h ↦
        step-plain true c (d ∷ s) args out (λ hc. unfold quote_next in ground arith)
          (λ p left done. bind_from-plain p (d ∷ s) left done)
  ]
  bind_from-plain false (c ∷ d ∷ s) args out =
      step-plain false c (d ∷ s) args out (λ hc. refl)
        (λ p left done. bind_from-plain p (d ∷ s) left done)
