-- ===== src/Engine/Like.antt =====
-- internal/engine/parser.go, likeMatch: the LIKE operator.
pub mod Decides
pub mod Ends
use super_db.Strings.{runes}
use super_db.Prelude.{
  ℕ, Text, List, Option, Bool, none, some, suc, true, false, length, ◌∷◌, [], if◌then◌else◌, ◌+◌,
  ◌==◌, ◌*◌, ◌||◌, zero,
}

abbrev pub any_one : ℕ
any_one = b'_'

abbrev pub any_run : ℕ
any_run = b'%'

-- for pi < len(p) && p[pi] == '%' { pi++ }, and whether that is the end of the pattern
unfoldable pub only_runs : List ℕ → Bool
only_runs [] = true
only_runs (a ∷ p) = if a == any_run then only_runs p else false

-- `starP` and `starV`, present from the first '%' on: the pattern behind it, and the value there
abbrev pub Star : Type 0
Star = Option (List ℕ × List ℕ)

abbrev pub retry : Star → (List ℕ → List ℕ → Star → Option Bool) → Option Bool
retry none next = some false
retry (some (sp, [])) next = some false
retry (some (sp, _ ∷ sv)) next = next sp sv (some (sp, sv))

-- The loop of `likeMatch` on what is left of the pattern and of the value; none where the fuel ran out.
unfoldable pub like_loop : ℕ → List ℕ → List ℕ → Star → Option Bool
unfolding only_runs
like_loop zero p v star = none
like_loop (suc f) p [] star = some (only_runs p)
like_loop (suc f) [] (c ∷ v) star = retry star (like_loop f)
like_loop (suc f) (a ∷ p) (c ∷ v) star = elim (a == any_one || a == c) [
  | true ↦ like_loop f p v star
  | false ↦ elim (a == any_run) [
    | true ↦ like_loop f p (c ∷ v) (some (p, c ∷ v))
    | false ↦ retry star (like_loop f)
  ]
]

-- on runes
unfoldable pub like_runes : List ℕ → List ℕ → Option Bool
like_runes p v =
    like_loop (suc ((length v + 1) * (length p + length v + 1) + (length p + length v))) p v none

-- `likeMatch`
unfoldable pub like_match : Text → Text → Option Bool
like_match pattern value = like_runes (runes pattern) (runes value)
