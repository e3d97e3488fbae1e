-- ===== src/Engine/Condition/Mutation/Safe.antt =====
-- parseMutationWhere does not take a text with a WHERE for one without.
use super_db.Strings.{trim_space}
use super_db.Engine.Condition.{Op}
use super_db.Engine.Condition.Mutation.{
  MutationWhere, invalid_where, where_term, parse_mutation_where, parse_where, finish_where,
  single_term,
}
use super_db.Engine.Condition.Parse.{Term, split_term}
use super_db.Engine.Literal.{unquote_literal}
use super_db.Engine.Fold.{index_keyword}
use super_db.Prelude.{
  ℕ, Text, some, [], ◌≡◌, ◌≢◌, ◌⊎◌, refl, arith, inl, inr, Bool-cases, Option-cases, length, drop,
  ◌+◌, ◌==◌, codes,
}

module _ (lower : Text → Text) where
  -- an error, or a term whose column is not empty
  abbrev pub IsGuarded : MutationWhere → Type 0
  IsGuarded r =
      (r ≡ invalid_where)
      ⊎ ((column : Text) × (value : Text) × (op : Op) × (r ≡ where_term column value op)
          × (column ≢ []))

  finish_where-IsGuarded : (t : Term) → IsGuarded (finish_where lower t)
  unfolding finish_where
  finish_where-IsGuarded (lhs, op, rhs) = elim (Bool-cases (length (lower (trim_space lhs)) == 0)) [
    | inl c ↦ inl (rw c refl)
    | inr c ↦ elim (Bool-cases (length (trim_space rhs) == 0)) [
      | inl v ↦ inl (rw (c, v) refl)
      | inr v ↦ inr (
        lower (trim_space lhs),
        unquote_literal (trim_space rhs),
        op,
        rw (c, v) refl,
        λ e. ground (arith, c, e),
      )
    ]
  ]

  parse_where-IsGuarded : (rest : Text) → IsGuarded (parse_where lower rest)
  unfolding parse_where
  parse_where-IsGuarded rest = elim (Bool-cases (length rest == 0)) [
    | inl b ↦ inl (rw b refl)
    | inr b ↦ elim (Option-cases (split_term rest)) [
      | inl e ↦ inl (rw (parse_where, b, e) refl)
      | inr (t, e) ↦ elim (Bool-cases (single_term rest t)) [
        | inl k ↦ rw (parse_where, b, e, k) (finish_where-IsGuarded t)
        | inr k ↦ inl (rw (parse_where, b, e, k) refl)
      ]
    ]
  ]

  -- Of a text that has the keyword WHERE outside its quotes, parseMutationWhere makes an error or a term on
  -- a column whose name is not empty, and never the answer that there is no WHERE.
  pub parse_mutation_where-IsGuarded :
      (s : Text) (i : ℕ)
      → index_keyword s (codes "WHERE") ≡ some i
      → IsGuarded (parse_mutation_where lower s)
  unfolding parse_mutation_where
  parse_mutation_where-IsGuarded s i found =
      rw (parse_mutation_where, found) (parse_where-IsGuarded (trim_space (drop (i + 5) s)))
