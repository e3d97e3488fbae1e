-- ===== src/Tests/Data.antt =====
-- A table with a secondary index, and floats that stand for whole numbers.
use super_db.Prelude.Map.{has, get}
use super_db.Engine.Insert.Indexed.{apply_insert_rows-IsIndexed}
use super_db.Engine.Index.Laws.{posted}
use super_db.Engine.Outcome.{background}
use super_db.Prelude.Decimal.{format_uint, ℤ, pos, negsuc, parse_digits}
use super_db.Engine.Table.Order.{IsOrdered, occurs}
use super_db.Engine.Table.Frame.{IsIndexed}
use super_db.Engine.Insert.Keeps.{IsBatch}
use super_db.Engine.Insert.{apply_insert_rows, InsertRow}
use super_db.Prelude.{
  ℕ, Bool, List, codes, false, ltb, true, ◌∷◌, [], inr, arith, refl, text_eq, text_eq_iff, ◌≢◌,
  ◌==◌,
}
use super_db.Engine.Value.{Floats, Row, text, int, int_type, text_type}
use super_db.Engine.Table.{Table}

abbrev pub to_natural : ℤ → ℕ
to_natural (pos n) = n
to_natural (negsuc n) = 0

instance abbrev pub whole_floats : Floats ℕ
whole_floats = record {
  format = format_uint;
  sprint = format_uint;
  less = ltb;
  of_int = to_natural;
  parse = parse_digits 0;
  same = ◌==◌;
}

abbrev pub ann : Row ℕ
ann = (codes "id", int (pos 1)) ∷ (codes "city", text (codes "Oslo")) ∷ []

abbrev pub bob : Row ℕ
bob = (codes "id", int (pos 2)) ∷ (codes "city", text (codes "Rome")) ∷ []

-- The table with its index on "city" and no row
abbrev pub nobody : Table ℕ
nobody = record {
  name = codes "people";
  columns =
      record { name = codes "id"; type = int_type; primary = true }
      ∷ record { name = codes "city"; type = text_type; primary = false }
      ∷ [];
  rows = [];
  order = [];
  indexes = (codes "city", []) ∷ [];
  index_names = (codes "by_city", codes "city") ∷ [];
  fast = [];
  positions = [];
  fast_pos = [];
  dead = 0;
  fast_dead = 0;
  auto_key = 0;
}

abbrev pub both : List (InsertRow ℕ)
both = record { key = codes "1"; row = ann } ∷ record { key = codes "2"; row = bob } ∷ []

abbrev pub people : Table ℕ
people = (apply_insert_rows background false nobody both).0

-- A WHERE that every row meets
abbrev pub every : Row ℕ → Bool
every row = true

pub both-IsBatch : IsBatch false both
unfolding text_eq
both-IsBatch = inr ((ground arith, (ground arith, tt)))

pub nobody-IsIndexed : IsIndexed nobody
unfolding posted has get
nobody-IsIndexed = record { unique = tt; agree = λ c v k. ground arith }

pub nobody-IsOrdered : IsOrdered nobody
unfolding has get occurs
nobody-IsOrdered = record { once = λ k h. cc; clean = λ d k h. refl }

pub people-IsIndexed : IsIndexed people
people-IsIndexed =
    apply_insert_rows-IsIndexed background false nobody both both-IsBatch nobody-IsIndexed

-- The same rows, written out
abbrev pub settled : Table ℕ
settled = record nobody {
  rows = (codes "1", ann) ∷ (codes "2", bob) ∷ [];
  order = codes "1" ∷ codes "2" ∷ [];
  indexes =
      (
        codes "city",
        (codes "Oslo", (codes "1", tt) ∷ []) ∷ (codes "Rome", (codes "2", tt) ∷ []) ∷ [],
      )
      ∷ [];
}

pub apart : codes "1" ≢ codes "2"
apart = ground arith

pub settled-IsOrdered : IsOrdered settled
unfolding has get occurs
settled-IsOrdered = record {
  once = λ k h. ground (arith, h, apart, text_eq_iff (codes "1") k, text_eq_iff (codes "2") k);
  clean = λ d k h. ground (arith, h, text_eq_iff (codes "1") k, text_eq_iff (codes "2") k);
}
