-- ===== src/Strings/Depth.antt =====
-- The depth of parentheses that the parsers of the engine count, an int that can fall below zero.
use super_db.Prelude.Decimal.{ℤ, pos, negsuc}
use super_db.Prelude.{Bool, true, false, zero, suc, ◌+◌}

unfoldable pub up : ℤ → ℤ
up (pos n) = pos (n + 1)
up (negsuc zero) = pos 0
up (negsuc (suc n)) = negsuc n

unfoldable pub down : ℤ → ℤ
down (pos zero) = negsuc 0
down (pos (suc n)) = pos n
down (negsuc n) = negsuc (n + 1)

unfoldable pub is_level : ℤ → Bool
is_level (pos zero) = true
is_level _ = false
