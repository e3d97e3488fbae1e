-- ===== src/Engine/Bind/Safe.antt =====
-- A bound value is never read as a placeholder or as a quote of the statement.
use super_db.Strings.{double_quotes}
use super_db.Prelude.Decimal.{
  IsDigits, format_int, ℤ, pos, format_uint, format_uint-IsDigits, negsuc,
}
use super_db.Engine.Value.{Floats, bool_text}
use super_db.Prelude.Decimal.{pos, negsuc}
use mathlib.Core.Path.{subst}
use super_db.Prelude.{
  true, false, ℕ, Text, Bool, ◌∷◌, List, arith, false, true, ◌++◌, ◌≢◌, [], ◌≡◌, Bool-cases, ap,
  refl, ◌∙◌, append_assoc, ◌==◌, inl, inr, not, ◌+◌, ◌&&◌, sym,
}
use super_db.Engine.Bind.{
  null, string, bool, int, uint, float, bytes, other, ok, err, Param, Result, bind_params,
  format_param, has_placeholder, literal, ok, quote, err, mark, string, bool, int, uint, float,
  bytes, other,
}
use super_db.Engine.Bind.Plain.{plain, marked, prepend, bind_from-plain, has_placeholder_lem}

-- A text with neither a quote nor a question mark
abbrev pub IsBare : Text → Type 0
IsBare [] = Unit
IsBare (c ∷ s) = (c ≢ quote) × (c ≢ mark) × IsBare s

marked-bare : (q : Bool) (t s : Text) → IsBare t → marked q (t ++ s) ≡ marked q s
marked-bare q [] s h = refl
marked-bare q (c ∷ t) s (a, b, h) = ground (arith, marked-bare q t s h)

marked-double : (t s : Text) → marked true (double_quotes t ++ s) ≡ marked true s
unfolding double_quotes
marked-double [] s = refl
marked-double (c ∷ t) s = elim (Bool-cases (c == quote)) [
  | inl e ↦ rw e (marked-double t s)
  | inr e ↦ rw e (rw e (ground (arith, marked-double t s)))
]

marked-literal : (t s : Text) → marked false (literal t ++ s) ≡ marked false s
unfolding literal
marked-literal t s =
    ap (marked true) (append_assoc (double_quotes t) (quote ∷ []) s) ∙ marked-double t (quote ∷ s)

pub digits-IsBare : (t : Text) → IsDigits t → IsBare t
digits-IsBare [] h = tt
digits-IsBare (c ∷ t) (a, b, h) = (ground arith, ground arith, digits-IsBare t h)

format_int-IsBare : (n : ℤ) → IsBare (format_int n)
unfolding format_int
format_int-IsBare (pos n) = digits-IsBare (format_uint n) (format_uint-IsDigits n)
format_int-IsBare (negsuc n) =
    (ground arith, ground arith, digits-IsBare (format_uint (n + 1)) (format_uint-IsDigits (n + 1)))

module _ {F : Type 0} ⦃fl : Floats F⦄ (floats : (x : F) → IsBare (fl.format x)) where
  marked-format_param :
      (a : Param F) (s : Text) → marked false (format_param a ++ s) ≡ marked false s
  unfolding format_param bool_text
  marked-format_param null s = refl
  marked-format_param (string t) s = marked-literal t s
  marked-format_param (bool true) s = refl
  marked-format_param (bool false) s = refl
  marked-format_param (int n) s = marked-bare false (format_int n) s (format_int-IsBare n)
  marked-format_param (uint n) s =
      marked-bare false (format_uint n) s (digits-IsBare (format_uint n) (format_uint-IsDigits n))
  marked-format_param (float x) s = marked-bare false (fl.format x) s (floats x)
  marked-format_param (bytes t) s = marked-literal t s
  marked-format_param (other t) s = marked-literal t s

  abbrev IsBound : Bool → Result Text → Type 0
  IsBound q (ok t) = marked q t ≡ false
  IsBound q (err e) = Unit

  -- what is put in front of a bound text that begins in state `p`
  IsBound-prepend :
      (p q : Bool) (t : Text) (r : Result Text)
      → ((u : Text) → marked q (t ++ u) ≡ marked p u)
      → IsBound p r
      → IsBound q (prepend t r)
  IsBound-prepend p q t (ok u) h b = h u ∙ b
  IsBound-prepend p q t (err e) h b = tt

  placeholder-IsBound :
      (q : Bool) (c : ℕ) (s : Text) (args : List (Param F))
      → (c == quote) ≡ false
      → (c == mark && not q) ≡ true
      → ((left : List (Param F)) → IsBound q (plain q s left))
      → IsBound q (plain q (c ∷ s) args)
  unfolding plain
  placeholder-IsBound true c s args h m ih = ground arith
  placeholder-IsBound false c s [] h m ih = rw (plain, h, m) tt
  placeholder-IsBound false c s (a ∷ rest) h m ih =
      rw (plain, h, m)
        (IsBound-prepend false false (format_param a) (plain false s rest)
          (λ u. marked-format_param a u) (ih rest))

  plain-IsBound : (q : Bool) (s : Text) (args : List (Param F)) → IsBound q (plain q s args)
  unfolding plain
  plain-IsBound q [] [] = refl
  plain-IsBound q [] (a ∷ rest) = tt
  plain-IsBound q (c ∷ s) args = elim (Bool-cases (c == quote)) [
    | inl h ↦
        rw (plain, h)
          (IsBound-prepend (not q) q (c ∷ []) (plain (not q) s args) (λ u. rw h refl)
            (plain-IsBound (not q) s args))
    | inr h ↦ elim (Bool-cases (c == mark && not q)) [
      | inl m ↦ placeholder-IsBound q c s args h m (λ left. plain-IsBound q s left)
      | inr m ↦
          rw (plain, h, m)
            (IsBound-prepend q q (c ∷ []) (plain q s args) (λ u. rw (h, m) refl)
              (plain-IsBound q s args))
    ]
  ]

  -- A statement that was bound has no placeholder left, whatever the values' texts hold, if a formatted
  -- float has neither a quote nor a question mark.
  pub bind_params_bound :
      (sql out : Text) (args : List (Param F))
      → bind_params sql args ≡ ok out
      → has_placeholder out ≡ false
  bind_params_bound sql out [] h =
      has_placeholder_lem out ∙ unfold bind_params in ground (arith, has_placeholder_lem sql, h)
  bind_params_bound sql out (a ∷ rest) h =
      let bound : IsBound false (prepend [] (plain false sql (a ∷ rest))) =
        IsBound-prepend false false [] (plain false sql (a ∷ rest)) (λ u. refl)
          (plain-IsBound false sql (a ∷ rest)) in
      let same : prepend [] (plain false sql (a ∷ rest)) ≡ ok out =
        sym (bind_from-plain false sql (a ∷ rest) []) ∙ unfold bind_params in h in
      let clean : IsBound false (ok out) = subst (λ r. IsBound false r) same bound in
      has_placeholder_lem out ∙ clean
