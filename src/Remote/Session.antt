-- ===== src/Remote/Session.antt =====
-- internal/remote/session.go: the statements and transactions of one connection, without a cluster. The
-- texts of the messages are left out.
pub mod System
pub mod Durable
pub mod Steps
pub mod Recovery
pub mod Race
use super_db.Strings.{trim_space}
use super_db.Engine.Fold.{upper}
use super_db.Engine.Outcome.{Context}
use super_db.Engine.Commit.{
  Engine, Database, Answer, CommitError, clone, commit_from, exec_with_options, is_read_only, done,
  failed,
}
use super_db.Storage.Log.{Disk, LogError, Writer, append}
use super_db.Prelude.Decimal.{ℤ, pos, negsuc}
use super_db.Prelude.{
  ℕ, Text, List, Bool, Option, none, some, true, false, ◌∷◌, [], ◌++◌, ◌&&◌, not, ltb, leb, length,
  ◌==◌, codes, if◌then◌else◌,
}

-- `equalFold`: its loop on texts of one length
equal_fold_loop : Text → Text → Bool
unfolding upper
equal_fold_loop [] [] = true
equal_fold_loop (c ∷ s) (k ∷ keyword) = if upper c == k then equal_fold_loop s keyword else false
equal_fold_loop _ _ = false

unfoldable pub equal_fold : Text → Text → Bool
unfolding equal_fold_loop
equal_fold s keyword = if length s == length keyword then equal_fold_loop s keyword else false

-- `isWriteSQL`
unfoldable pub is_write_sql : Text → Bool
is_write_sql raw = not (is_read_only raw)

-- `writeStatements`
unfoldable pub write_statements : List Text → List Text
unfolding is_write_sql
write_statements [] = []
write_statements (sql ∷ sqls) =
    let rest = write_statements sqls in if is_write_sql sql then sql ∷ rest else rest

-- The modes that persist, and any other one
pub data Mode : Type 0 where
  wal snapshot memory : Mode

-- `MaxTxStatements` and `MaxTxDatabaseRows` of server.Limits
pub record TxLimits : Type 0 where
  pub max_tx_statements : ℤ
  pub max_tx_database_rows : ℤ

-- lim > 0 && n > lim, and lim > 0 && n >= lim
unfoldable pub over : ℤ → ℕ → Bool
over (pos l) n = ltb 0 l && ltb l n
over (negsuc l) n = false

unfoldable pub reached : ℤ → ℕ → Bool
reached (pos l) n = ltb 0 l && leb l n
reached (negsuc l) n = false

pub data SessionError (E : Type 0) : Type 0 where
  transaction_active no_transaction transaction_rejected transaction_aborted : SessionError E
  commit_failed : CommitError LogError → SessionError E
  persist_error : LogError → SessionError E
  query_error : E → SessionError E

pub data Reply (R E : Type 0) : Type 0 where
  message : Reply R E
  result : R → Reply R E
  error : SessionError E → Reply R E

-- `session`, beside the database and the log, which all sessions share
pub record Session (D : Type 0) : Type 0 where
  pub tx : Option (Database D)
  pub tx_sql : List Text

pub record Conn (D : Type 0) : Type 0 where
  pub db : Database D
  pub writer : Writer
  pub session : Session D

-- s.tx = nil and s.txSQL = nil
abbrev pub no_tx : {D : Type 0} → Session D
no_tx = record { tx = none; tx_sql = [] }

-- What the world does during one statement: the context at its polls, and the disk.
pub record World (E : Type 0) : Type 0 where
  pub early : Option E
  pub late : Option E
  pub ctx : Context
  pub disk : Disk

-- `write_snapshot` is storage.WriteSnapshot, with the error that it ends with.
pub record Config (D : Type 0) : Type 0 where
  pub mode : Mode
  pub limits : TxLimits
  pub write_snapshot : Database D → Option LogError

persist_in :
    {D : Type 0}
    → Config D
    → Mode
    → Disk
    → List Text
    → Database D
    → Writer
    → Writer × Option LogError
persist_in cfg wal disk sqls image w = append w sqls disk
persist_in cfg snapshot disk [] image w = (w, none)
persist_in cfg snapshot disk (sql ∷ sqls) image w = (w, cfg.write_snapshot image)
persist_in cfg memory disk sqls image w = (w, none)

-- `persistStatements` with an open writer
unfoldable pub persist_statements :
    {D : Type 0} → Config D → Disk → List Text → Database D → Writer → Writer × Option LogError
unfolding persist_in
persist_statements cfg disk sqls image w = persist_in cfg cfg.mode disk sqls image w

module _ {D R E : Type 0} ⦃engine : Engine D R E⦄ (cfg : Config D) where
  unfoldable pub begin_tx : Conn D → Option (Database D) → Conn D × Reply R E
  begin_tx c (some tx) = (c, error transaction_active)
  begin_tx c none =
      if over cfg.limits.max_tx_database_rows (engine.row_count c.db.tables)
      then (c, error transaction_rejected)
      else (record c { session = record { tx = some (clone c.db); tx_sql = [] } }, message)

  unfoldable pub rollback_tx : Conn D → Option (Database D) → Conn D × Reply R E
  rollback_tx c none = (c, error no_transaction)
  rollback_tx c (some tx) = (record c { session = no_tx }, message)

  committed : Conn D → Database D × Writer × Option (CommitError LogError) → Conn D × Reply R E
  committed c (db, w, some e) = (record c { db = db; writer = w }, error (commit_failed e))
  committed c (db, w, none) = (record { db = db; writer = w; session = no_tx }, message)

  commit_writes : Disk → Conn D → Database D → List Text → Conn D × Reply R E
  unfolding committed
  commit_writes disk c tx [] = (record c { session = no_tx }, message)
  commit_writes disk c tx (sql ∷ sqls) =
      committed c
        (commit_from c.db tx (λ image w. persist_statements cfg disk (sql ∷ sqls) image w) c.writer)

  unfoldable pub commit_tx : Disk → Conn D → Option (Database D) → Conn D × Reply R E
  unfolding commit_writes
  commit_tx disk c none = (c, error no_transaction)
  commit_tx disk c (some tx) = commit_writes disk c tx (write_statements c.session.tx_sql)

  -- a statement on the clone, which buffers it if it writes
  unfoldable pub buffered : Conn D → Text → Database D × Answer R E → Conn D × Reply R E
  buffered c raw (tx, failed e) =
      (record c { session = record c.session { tx = some tx } }, error (query_error e))
  buffered c raw (tx, done r) =
      if is_write_sql raw
      then (if reached cfg.limits.max_tx_statements (length c.session.tx_sql)
          then (record c { session = no_tx }, error transaction_aborted)
          else (
            record c { session = record { tx = some tx; tx_sql = c.session.tx_sql ++ (raw ∷ []) } },
            result r,
          ))
      else (record c { session = record c.session { tx = some tx } }, result r)

  logged : Conn D → R → Writer × Option LogError → Conn D × Reply R E
  logged c r (w, some e) = (record c { writer = w }, error (persist_error e))
  logged c r (w, none) = (record c { writer = w }, result r)

  -- a statement on the database, and then its append to the log, before which other connections may run
  unfoldable pub direct : Disk → Conn D → Text → Database D × Answer R E → Conn D × Reply R E
  unfolding logged
  direct disk c raw (db, failed e) = (record c { db = db }, error (query_error e))
  direct disk c raw (db, done r) =
      if is_write_sql raw
      then logged (record c { db = db }) r (persist_statements cfg disk (raw ∷ []) db c.writer)
      else (record c { db = db }, result r)

  unfoldable pub run_statement : World E → Conn D → Text → Option (Database D) → Conn D × Reply R E
  unfolding buffered direct
  run_statement w c raw (some tx) = buffered c raw (exec_with_options w.early w.late w.ctx tx raw)
  run_statement w c raw none = direct w.disk c raw (exec_with_options w.early w.late w.ctx c.db raw)

  -- `execOne`
  unfoldable pub exec_one : World E → Conn D → Text → Conn D × Reply R E
  unfolding begin_tx rollback_tx commit_tx run_statement
  exec_one w c raw =
      let sql = trim_space raw in
      if equal_fold sql (codes "BEGIN")
      then begin_tx c c.session.tx
      else if equal_fold sql (codes "ROLLBACK")
      then rollback_tx c c.session.tx
      else if equal_fold sql (codes "COMMIT")
      then commit_tx w.disk c c.session.tx
      else run_statement w c raw c.session.tx
