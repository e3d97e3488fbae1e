-- ===== src/Engine/Fold.antt =====
-- internal/engine/fold.go: keywords found in a statement, whatever their case.
pub mod First
use super_db.Prelude.{
  ℕ, Text, Bool, Option, if◌then◌else◌, false, leb, length, ltb, not, true, none, some, ◌&&◌, ◌==◌,
  ◌∷◌, [], ◌+◌, ◌-◌, ◌||◌, drop, ◌≡◌, arith,
}

-- if 'a' <= c && c <= 'z' { c -= 'a' - 'A' }
unfoldable pub upper : ℕ → ℕ
upper c = if leb 97 c && leb c 122 then c - 32 else c

-- the loop of `hasPrefixFold` and `foldEqualAt`; a text that ends early was refused before it
fold_loop : Text → Text → Bool
fold_loop s [] = true
fold_loop [] (n ∷ ns) = false
fold_loop (c ∷ s) (n ∷ ns) = if upper c == n then fold_loop s ns else false

unfoldable pub has_prefix_fold : Text → Text → Bool
unfolding fold_loop upper
has_prefix_fold s prefix = if ltb (length s) (length prefix) then false else fold_loop s prefix

unfoldable pub fold_equal_at : Text → Text → Bool
unfolding fold_loop upper
fold_equal_at s needle = if ltb (length s) (length needle) then false else fold_loop s needle

-- the loop of `indexFold`, which is for a `sub` that is not empty; none is -1
unfoldable pub index_fold_from : ℕ → Text → Text → Option ℕ
index_fold_from i [] sub = none
index_fold_from i (c ∷ s) sub =
    let rest = index_fold_from (i + 1) s sub in
    if leb (length sub) (length (c ∷ s))
    then (if fold_equal_at (c ∷ s) sub then some i else rest)
    else none

unfoldable pub index_fold : Text → Text → Option ℕ
unfolding index_fold_from
index_fold s sub =
    if length sub == 0
    then some 0
    else if ltb (length s) (length sub)
    then none
    else index_fold_from 0 s sub

unfoldable pub identifier_byte : ℕ → Bool
identifier_byte c =
    leb 97 c && leb c 122
    || (leb 65 c && leb c 90 || (leb 48 c && leb c 57 || (c == 95 || leb 128 c)))

-- `quoted && i+1 < len(s) && s[i+1] == '\''`, `i > 0 && identifierByte(s[i-1])` and
-- `end == len(s) || !identifierByte(s[end])`
unfoldable pub quote_at : Text → Bool
quote_at [] = false
quote_at (c ∷ s) = c == 39

unfoldable pub inside_word : Option ℕ → Bool
unfolding identifier_byte
inside_word none = false
inside_word (some c) = identifier_byte c

unfoldable pub word_ends : Text → Bool
unfolding identifier_byte
word_ends [] = true
word_ends (c ∷ s) = not (identifier_byte c)

-- the loop of `indexKeyword`, from index `i` on: `before` is the byte before it, and `skip` says that
-- the byte at it is the second of a doubled quote. No caller has an empty keyword.
unfoldable pub index_keyword_from : Bool → Bool → Option ℕ → ℕ → Text → Text → Option ℕ
unfolding quote_at inside_word word_ends
index_keyword_from skip quoted before i [] keyword = none
index_keyword_from true quoted before i (c ∷ s) keyword =
    index_keyword_from false quoted (some c) (i + 1) s keyword
index_keyword_from false quoted before i (c ∷ s) keyword =
    let pair = index_keyword_from true quoted (some c) (i + 1) s keyword in
    let toggled = index_keyword_from false (not quoted) (some c) (i + 1) s keyword in
    let rest = index_keyword_from false quoted (some c) (i + 1) s keyword in
    if ltb (length (c ∷ s)) (length keyword)
    then none
    else if c == 39
    then (if quoted && quote_at s then pair else toggled)
    else if quoted || inside_word before
    then rest
    else if fold_equal_at (c ∷ s) keyword && word_ends (drop (length keyword) (c ∷ s))
    then some i
    else rest

unfoldable pub index_keyword : Text → Text → Option ℕ
index_keyword s keyword = index_keyword_from false false none 0 s keyword

-- A text whose first byte is another one does not match.
pub fold_equal_at_other :
    (c d : ℕ) (s needle : Text)
    → (upper c == d) ≡ false
    → fold_equal_at (c ∷ s) (d ∷ needle) ≡ false
unfolding fold_equal_at fold_loop
fold_equal_at_other c d s needle h = ground (arith, h)
