-- ===== src/Tests/Sessions.antt =====
-- Two connections that insert into a table.
use super_db.Engine.Commit.{Answer, Database, Engine, done, failed, is_read_only}
use super_db.Engine.Insert.{InsertRow, apply_insert_rows}
use super_db.Engine.Insert.Parse.{Parsed, parse_insert_rows_mode, parsed, refused}
use super_db.Engine.Outcome.{Context, Failure, Outcome, fail, ok}
use super_db.Engine.Table.{Table}
use super_db.Tests.Data.{whole_floats}
use super_db.Remote.Session.{Config, wal}
use super_db.Remote.Session.System.{Event}
use super_db.Storage.Format.{Zlib}
use super_db.Prelude.Decimal.{pos}
use super_db.Prelude.{
  Text, List, ℕ, codes, ◌∷◌, [], ◌++◌, none, some, length, take, if◌then◌else◌, drop, false,
}

-- The INSERT statements of a table whose floats are natural numbers, by the parser and the batch of the
-- program. `unparsed` is an error of the parser.
data Refusal : Type 0 where
  unparsed : Refusal
  refused_by : Failure → Refusal

inserted : Table ℕ × Outcome → Table ℕ × Answer ℕ Refusal
inserted (t, ok n) = (t, done n)
inserted (t, fail e) = (t, failed (refused_by e))

parsed_insert : Context → Table ℕ → Parsed (List (InsertRow ℕ)) → Table ℕ × Answer ℕ Refusal
unfolding inserted
parsed_insert ctx t (refused e) = (t, failed unparsed)
parsed_insert ctx t (parsed items) = inserted (apply_insert_rows ctx false t items)

insert : Context → Table ℕ → Text → Table ℕ × Answer ℕ Refusal
unfolding parsed_insert
insert ctx t sql =
    if is_read_only sql
    then (t, done 0)
    else parsed_insert ctx t (
        parse_insert_rows_mode (drop (length (codes "INSERT INTO people VALUES")) sql) t.columns
          false)

abbrev inserter : Engine (Table ℕ) ℕ Refusal
inserter = record { exec = insert; row_count = λ t. length t.rows }

abbrev config : {D : Type 0} → Config D
config = record {
  mode = wal;
  limits = record { max_tx_statements = pos 8; max_tx_database_rows = pos 8 };
  write_snapshot = λ image. none;
}

-- A compressor that stores its input
abbrev storing : Zlib
storing = record { deflate = λ p. p; inflate = λ p n. some (take n p) }

abbrev sent : ℕ → Text → Event Refusal
sent i sql = record { at = i; sql = sql; early = none; late = none }

-- The first transaction is committed, and the second one conflicts with it.
abbrev traffic : List (Event Refusal)
traffic =
    sent 0 (codes "BEGIN")
    ∷ sent 1 (codes "BEGIN")
    ∷ sent 0 (codes "INSERT INTO people VALUES (1, 'Oslo')")
    ∷ sent 1 (codes "INSERT INTO people VALUES (1, 'Rome')")
    ∷ sent 0 (codes "COMMIT")
    ∷ sent 1 (codes "COMMIT")
    ∷ []

-- What runs without an error, in the order in which it runs
abbrev listed : Engine (List Text) ℕ Refusal
listed = record { exec = λ ctx d sql. (d ++ (sql ∷ []), done 1); row_count = λ d. length d }

abbrev nothing : Database (List Text)
nothing = record { tables = []; revision = 0; base_revision = 0 }
