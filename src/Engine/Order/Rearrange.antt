-- ===== src/Engine/Order/Rearrange.antt =====
-- Lists with the same entries in another order, and what holds of each entry.
use super_db.Prelude.{List, ◌∷◌, [], ◌++◌, ◌≡◌, refl, ap, ◌∙◌, length, suc}

pub data Rearranged {A : Type 0} : List A → List A → Type 0 where
  same : {xs : List A} → Rearranged xs xs
  keep : {x : A} {xs ys : List A} → Rearranged xs ys → Rearranged (x ∷ xs) (x ∷ ys)
  exchange : {x y : A} {xs : List A} → Rearranged (x ∷ y ∷ xs) (y ∷ x ∷ xs)
  chain : {xs ys zs : List A} → Rearranged xs ys → Rearranged ys zs → Rearranged xs zs

abbrev pub All : {A : Type 0} → (A → Type 0) → List A → Type 0
All Q [] = Unit
All Q (x ∷ xs) = Q x × All Q xs

module _ {A : Type 0} where
  pub back : {xs ys : List A} → Rearranged xs ys → Rearranged ys xs
  back same = same
  back (keep p) = keep (back p)
  back exchange = exchange
  back (chain p q) = chain (back q) (back p)

  pub All-Rearranged : (Q : A → Type 0) {xs ys : List A} → Rearranged xs ys → All Q xs → All Q ys
  All-Rearranged Q same a = a
  All-Rearranged Q (keep p) (h, a) = (h, All-Rearranged Q p a)
  All-Rearranged Q exchange (h, (g, a)) = (g, (h, a))
  All-Rearranged Q (chain p q) a = All-Rearranged Q q (All-Rearranged Q p a)

  pub length-Rearranged : {xs ys : List A} → Rearranged xs ys → length xs ≡ length ys
  length-Rearranged same = refl
  length-Rearranged (keep p) = ap suc (length-Rearranged p)
  length-Rearranged exchange = refl
  length-Rearranged (chain p q) = length-Rearranged p ∙ length-Rearranged q

  pub Rearranged-append :
      {xs ys : List A} (zs : List A) → Rearranged xs ys → Rearranged (xs ++ zs) (ys ++ zs)
  Rearranged-append zs same = same
  Rearranged-append zs (keep p) = keep (Rearranged-append zs p)
  Rearranged-append zs exchange = exchange
  Rearranged-append zs (chain p q) = chain (Rearranged-append zs p) (Rearranged-append zs q)

  pub Rearranged-middle :
      (xs : List A) (y : A) (ys : List A) → Rearranged (xs ++ (y ∷ ys)) (y ∷ (xs ++ ys))
  Rearranged-middle [] y ys = same
  Rearranged-middle (x ∷ xs) y ys = chain (keep (Rearranged-middle xs y ys)) exchange
