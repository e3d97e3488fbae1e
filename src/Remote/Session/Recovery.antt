-- ===== src/Remote/Session/Recovery.antt =====
-- Replaying the log of sessions whose statements run one after the other.
use super_db.Engine.Commit.{Engine, Database, apply}
use super_db.Engine.Commit.Ran.{Runs}
use super_db.Remote.Session.{Session, no_tx}
use super_db.Remote.Session.Durable.{IsDurable, TxOk}
use super_db.Remote.Session.System.{System, Event}
use super_db.Storage.Format.{Zlib}
use super_db.Storage.Log.{run_from}
use super_db.Prelude.{ℕ, Text, List, none, some, ◌∷◌, [], ◌≡◌, ap, suc, ◌+◌, zero}

abbrev pub AllTx : {D R E : Type 0} → Engine D R E → D → Database D → List (Session D) → Type 0
AllTx engine d0 db [] = Unit
AllTx engine d0 db (s ∷ ss) = TxOk engine d0 db s.tx s.tx_sql × AllTx engine d0 db ss

-- No session has a transaction.
abbrev pub idle : {D : Type 0} → ℕ → List (Session D)
idle zero = []
idle (suc n) = no_tx ∷ idle n

-- A server with `n` connections and an empty log
abbrev pub start : {D : Type 0} → D → ℕ → System D
start d n = record {
  db = record { tables = d; revision = 0; base_revision = 0 };
  writer = some [];
  sessions = idle n;
}

abbrev pub sql_of : {E : Type 0} → Event E → Text
sql_of ev = ev.sql

module _ {D R E : Type 0} (engine : Engine D R E) (d0 : D) where
  abbrev SystemOk : ℕ → System D → Type 0
  SystemOk k sys = IsDurable engine d0 k sys.db sys.writer × AllTx engine d0 sys.db sys.sessions

  pub run_from-Runs :
      (z : Zlib) (n : ℕ) (s t : D) (sqls : List Text)
      → Runs engine s sqls t
      → run_from z (apply engine) n s sqls ≡ (t, none)
  unfolding run_from
  run_from-Runs z n s t [] e = ap (λ (x : D). (x, none)) e
  run_from-Runs z n s t (sql ∷ sqls) (h, runs) =
      rw (run_from, h) (run_from-Runs z (n + 1) (apply engine s sql).0 t sqls runs)
