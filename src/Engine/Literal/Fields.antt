-- ===== src/Engine/Literal/Fields.antt =====
-- splitVals on the texts that the binder writes between commas.
use mathlib.Core.List.{reverse_aux, reverse_aux-append, reverse-reverse}
use super_db.Strings.{double_quotes, trim_space}
use super_db.Strings.Trim.{AllVisible, trim_space-AllVisible}
use super_db.Engine.Bind.{
  Param, literal, format_param, null, string, bytes, other, bool, int, uint, float,
}
use super_db.Engine.Literal.{split_vals, split_vals_from}
use super_db.Engine.Literal.Bound.{trim_space-literal, digits-AllVisible, format_int-AllVisible}
use super_db.Engine.Fold.{quote_at}
use super_db.Engine.Value.{Floats, bool_text}
use super_db.Prelude.Decimal.{
  ℤ, pos, negsuc, IsDigits, format_int, format_uint, format_uint-IsDigits,
}
use super_db.Prelude.{
  ℕ, Text, List, Bool, true, false, ◌∷◌, [], ◌++◌, ◌≡◌, ◌≢◌, refl, ap, ◌∙◌, sym, arith, reverse,
  append_assoc, map, Bool-cases, ◌==◌, inl, inr, codes, ◌+◌,
}

-- the fields with a comma between each two
abbrev pub more_fields : List Text → Text
more_fields [] = []
more_fields (t ∷ ts) = 44 ∷ (t ++ more_fields ts)

abbrev pub join_fields : List Text → Text
join_fields [] = []
join_fields (t ∷ ts) = t ++ more_fields ts

-- The loop of splitVals walks over the whole text, if no quote follows it, and trims nothing off it.
abbrev pub IsField : Text → Type 0
IsField t =
    ((field s : Text)
      → quote_at s ≡ false
      → split_vals_from false false field (t ++ s)
        ≡ split_vals_from false false (reverse_aux t field) s)
    × (trim_space t ≡ t)

abbrev pub AllFields : List Text → Type 0
AllFields [] = Unit
AllFields (t ∷ ts) = IsField t × AllFields ts

more_fields-no_quote : (ts : List Text) → quote_at (more_fields ts) ≡ false
unfolding quote_at
more_fields-no_quote [] = refl
more_fields-no_quote (t ∷ ts) = refl

split_comma :
    (field s : Text)
    → split_vals_from false false field (44 ∷ s)
      ≡ trim_space (reverse field) ∷ split_vals_from false false [] s
unfolding split_vals_from
split_comma field s = refl

split_end : (field : Text) → split_vals_from false false field [] ≡ trim_space (reverse field) ∷ []
unfolding split_vals_from
split_end field = refl

split_back : (t : Text) → trim_space t ≡ t → trim_space (reverse (reverse_aux t [])) ≡ t
split_back t h = ap trim_space (reverse-reverse t) ∙ h

split_fields :
    (t : Text) (ts : List Text)
    → AllFields (t ∷ ts)
    → split_vals_from false false [] (t ++ more_fields ts) ≡ t ∷ ts
split_fields t [] ((walk, whole), rest) =
    walk [] [] (more_fields-no_quote [])
    ∙ split_end (reverse_aux t [])
    ∙ ap (λ (u : Text). u ∷ []) (split_back t whole)
split_fields t (u ∷ ts) ((walk, whole), rest) =
    walk [] (more_fields (u ∷ ts)) (more_fields-no_quote (u ∷ ts))
    ∙ split_comma (reverse_aux t []) (u ++ more_fields ts)
    ∙ ap (◌∷◌ (trim_space (reverse (reverse_aux t [])))) (split_fields u ts rest)
    ∙ ap (λ (v : Text). v ∷ u ∷ ts) (split_back t whole)

-- a byte that is no quote and no comma, in front of the rest of an unquoted text
split_plain :
    (c : ℕ) (field s : Text)
    → c ≢ 39
    → c ≢ 44
    → split_vals_from false false field (c ∷ s) ≡ split_vals_from false false (c ∷ field) s
unfolding split_vals_from
split_plain c field s quote comma = ground arith

split_quoted :
    (c : ℕ) (field s : Text)
    → (c == 39) ≡ false
    → split_vals_from false true field (c ∷ s) ≡ split_vals_from false true (c ∷ field) s
unfolding split_vals_from
split_quoted c field s h = ground arith

split_pair :
    (c : ℕ) (field s : Text)
    → split_vals_from false true field (39 ∷ 39 ∷ s)
      ≡ split_vals_from false true (39 ∷ 39 ∷ field) s
unfolding split_vals_from quote_at
split_pair c field s = refl

split_open :
    (field s : Text)
    → split_vals_from false false field (39 ∷ s) ≡ split_vals_from false true (39 ∷ field) s
unfolding split_vals_from
split_open field s = refl

split_close :
    (field s : Text)
    → quote_at s ≡ false
    → split_vals_from false true field (39 ∷ s) ≡ split_vals_from false false (39 ∷ field) s
unfolding split_vals_from
split_close field s h = rw h refl

split_body :
    (t field s : Text)
    → split_vals_from false true field (double_quotes t ++ s)
      ≡ split_vals_from false true (reverse_aux (double_quotes t) field) s
unfolding double_quotes
split_body [] field s = refl
split_body (c ∷ t) field s = elim (Bool-cases (c == 39)) [
  | inl h ↦ rw h (split_pair 39 field (double_quotes t ++ s) ∙ split_body t (39 ∷ 39 ∷ field) s)
  | inr h ↦ rw h (split_quoted c field (double_quotes t ++ s) h ∙ split_body t (c ∷ field) s)
]

literal-IsField : (t : Text) → IsField (literal t)
literal-IsField t = (
  λ field s h.
      unfold literal in
      ap (split_vals_from false false field)
        (ap (◌∷◌ 39) (append_assoc (double_quotes t) (39 ∷ []) s))
      ∙ split_open field (double_quotes t ++ (39 ∷ s))
      ∙ split_body t (39 ∷ field) (39 ∷ s)
      ∙ split_close (reverse_aux (double_quotes t) (39 ∷ field)) s h
      ∙ ap (λ (u : Text). split_vals_from false false u s)
          (sym (reverse_aux-append (double_quotes t) (39 ∷ []) (39 ∷ field))),
  trim_space-literal t,
)

-- A text with neither a quote nor a comma
abbrev pub IsPlain : Text → Type 0
IsPlain [] = Unit
IsPlain (c ∷ s) = (c ≢ 39) × (c ≢ 44) × IsPlain s

plain-walk :
    (t field s : Text)
    → IsPlain t
    → split_vals_from false false field (t ++ s)
      ≡ split_vals_from false false (reverse_aux t field) s
plain-walk [] field s h = refl
plain-walk (c ∷ t) field s (a, b, h) =
    split_plain c field (t ++ s) a b ∙ plain-walk t (c ∷ field) s h

plain-IsField : (t : Text) → IsPlain t → AllVisible t → IsField t
plain-IsField t p v = (λ field s h. plain-walk t field s p, trim_space-AllVisible t v)

digits-IsPlain : (t : Text) → IsDigits t → IsPlain t
digits-IsPlain [] h = tt
digits-IsPlain (c ∷ t) (a, b, h) = (ground arith, ground arith, digits-IsPlain t h)

digits-IsField : (t : Text) → IsDigits t → IsField t
digits-IsField t h = plain-IsField t (digits-IsPlain t h) (digits-AllVisible t h)

format_int-IsField : (n : ℤ) → IsField (format_int n)
format_int-IsField (pos n) =
    unfold format_int in digits-IsField (format_uint n) (format_uint-IsDigits n)
format_int-IsField (negsuc n) =
    plain-IsField (format_int (negsuc n))
      (unfold format_int in
        (
          ground arith,
          ground arith,
          digits-IsPlain (format_uint (n + 1)) (format_uint-IsDigits (n + 1)),
        ))
      (format_int-AllVisible (negsuc n))

bool_text-IsField : (b : Bool) → IsField (bool_text b)
bool_text-IsField true =
    unfold bool_text in plain-IsField (codes "true") (ground arith) (ground arith)
bool_text-IsField false =
    unfold bool_text in plain-IsField (codes "false") (ground arith) (ground arith)

module _ {F : Type 0} ⦃fl : Floats F⦄
    (floats : (x : F) → IsPlain (fl.format x) × AllVisible (fl.format x)) where
  format_param-IsField : (a : Param F) → IsField (format_param a)
  format_param-IsField null =
      unfold format_param in plain-IsField (codes "NULL") (ground arith) (ground arith)
  format_param-IsField (string t) = unfold format_param in literal-IsField t
  format_param-IsField (bytes t) = unfold format_param in literal-IsField t
  format_param-IsField (other t) = unfold format_param in literal-IsField t
  format_param-IsField (bool b) = unfold format_param in bool_text-IsField b
  format_param-IsField (int n) = unfold format_param in format_int-IsField n
  format_param-IsField (uint n) =
      unfold format_param in digits-IsField (format_uint n) (format_uint-IsDigits n)
  format_param-IsField (float x) =
      unfold format_param in plain-IsField (fl.format x) (floats x).0 (floats x).1

  params-AllFields : (args : List (Param F)) → AllFields (map format_param args)
  params-AllFields [] = tt
  params-AllFields (a ∷ args) = (format_param-IsField a, params-AllFields args)

  -- Values that were written with commas between them are split into the same texts again, whatever
  -- quotes and commas the values hold, if a formatted float has visible bytes only and no quote or comma.
  pub split_vals-format_param :
      (a : Param F) (args : List (Param F))
      → split_vals (join_fields (map format_param (a ∷ args))) ≡ map format_param (a ∷ args)
  unfolding split_vals
  split_vals-format_param a args =
      split_fields (format_param a) (map format_param args) (params-AllFields (a ∷ args))
