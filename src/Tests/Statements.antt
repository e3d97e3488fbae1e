-- ===== src/Tests/Statements.antt =====
-- A statement with placeholders.
use super_db.Strings.{double_quotes}
use super_db.Prelude.Decimal.{format_int, format_uint, format_uint-IsDigits, negsuc}
use super_db.Engine.Bind.Safe.{IsBare, digits-IsBare, bind_params_bound}
use super_db.Engine.Bind.{
  bind_params, Param, bind_from, format_param, string, int, literal, has_placeholder,
}
use super_db.Prelude.{Text, List, codes, ℕ, ◌≡◌, ◌∷◌, [], false, refl}
use super_db.Tests.Data.{whole_floats}

abbrev sql : Text
sql = codes "SELECT '?' WHERE a=? AND b=?"

abbrev args : List (Param ℕ)
args = string (codes "it's?") ∷ int (negsuc 6) ∷ []

-- Each float is written in digits.
formats : (x : ℕ) → IsBare (whole_floats.format x)
formats x = digits-IsBare (format_uint x) (format_uint-IsDigits x)

bind_params_bound_example : has_placeholder (codes "SELECT '?' WHERE a='it''s?' AND b=-7") ≡ false
unfolding bind_params bind_from format_param format_int format_uint literal double_quotes
bind_params_bound_example =
    bind_params_bound formats sql (codes "SELECT '?' WHERE a='it''s?' AND b=-7") args refl
