-- ===== src/Engine/Bind/Exact.antt =====
-- Binding needs one value for each placeholder.
use super_db.Engine.Value.{Floats}
use super_db.Prelude.{
  Text, Bool, ◌≡◌, List, false, true, ◌==◌, ◌↔◌, length, refl, ◌∷◌, arith, not, [], ap, ◌∙◌, sym,
}
use super_db.Engine.Bind.{Param, Result, bind_params, placeholder_count, ok, err, format_param}
use super_db.Engine.Bind.Plain.{
  plain, marks, marked, prepend, bind_from-plain, has_placeholder_lem, placeholder_count_lem,
}

marked-marks : (q : Bool) (s : Text) → (marked q s ≡ false) ↔ (marks q s ≡ 0)
marked-marks q [] = ((λ h. refl), (λ h. refl))
marked-marks q (c ∷ s) =
    let same = marked-marks q s in
    let other = marked-marks (not q) s in
    ((λ h. ground (arith, same, other)), (λ h. ground (arith, same, other)))

abbrev pub is_ok : Result Text → Bool
is_ok (ok _) = true
is_ok (err _) = false

is_ok-prepend : (t : Text) (r : Result Text) → is_ok (prepend t r) ≡ is_ok r
is_ok-prepend t (ok u) = refl
is_ok-prepend t (err e) = refl

module _ {F : Type 0} ⦃fl : Floats F⦄ where
  is_ok-plain :
      (q : Bool) (s : Text) (args : List (Param F))
      → is_ok (plain q s args) ≡ (marks q s == length args)
  unfolding plain
  is_ok-plain q [] [] = refl
  is_ok-plain q [] (a ∷ rest) = ground arith
  is_ok-plain q (c ∷ s) [] = ground (
    arith,
    is_ok-prepend (c ∷ []) (plain (not q) s []),
    is_ok-prepend (c ∷ []) (plain q s []),
    is_ok-plain (not q) s [],
    is_ok-plain q s [],
  )
  is_ok-plain q (c ∷ s) (a ∷ rest) = ground (
    arith,
    is_ok-prepend (c ∷ []) (plain (not q) s (a ∷ rest)),
    is_ok-prepend (c ∷ []) (plain q s (a ∷ rest)),
    is_ok-prepend (format_param a) (plain q s rest),
    is_ok-plain (not q) s (a ∷ rest),
    is_ok-plain q s (a ∷ rest),
    is_ok-plain q s rest,
  )

  -- Binding succeeds exactly if there are as many values as placeholders.
  pub bind_params_exact :
      (sql : Text) (args : List (Param F))
      → is_ok (bind_params sql args) ≡ (placeholder_count sql == length args)
  unfolding bind_params
  bind_params_exact sql [] =
      ground (arith, has_placeholder_lem sql, placeholder_count_lem sql, marked-marks false sql)
  bind_params_exact sql (a ∷ rest) =
      ap is_ok (bind_from-plain false sql (a ∷ rest) [])
      ∙ is_ok-prepend [] (plain false sql (a ∷ rest))
      ∙ is_ok-plain false sql (a ∷ rest)
      ∙ ap (λ n. n == length (a ∷ rest)) (sym (placeholder_count_lem sql))
