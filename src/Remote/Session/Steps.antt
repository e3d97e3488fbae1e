-- ===== src/Remote/Session/Steps.antt =====
-- A statement of a session keeps what the log and the tables have in common.
use super_db.Engine.Outcome.{background}
use super_db.Engine.Commit.{
  Engine, Database, Answer, apply, exec_with_options, is_read_only, done, failed,
}
use super_db.Engine.Commit.Ran.{Runs, Runs-append, Ran, Same, Wrote, exec_with_options-Ran}
use super_db.Remote.Session.{
  Config, Conn, wal, exec_one, run_statement, buffered, is_write_sql, no_tx, reached, equal_fold,
}
use super_db.Remote.Session.Durable.{
  IsDurable, TxOk, Ok, AllWrites-append, session-Ok, begin_tx-Ok, rollback_tx-Ok, commit_tx-Ok,
  direct-Ok,
}
use super_db.Remote.Session.System.{Event, calm}
use super_db.Strings.{trim_space}
use super_db.Storage.Log.{all_fit}
use super_db.Storage.Log.Replay.{all_fit-append}
use super_db.Prelude.{
  ℕ, Text, List, Option, none, some, true, false, ◌∷◌, [], ◌++◌, ◌≡◌, ◌<◌, refl, ap, ◌∙◌, sym,
  arith, inl, inr, suc, Bool-cases, not, ◌^◌, length, codes,
}
use mathlib.Core.Path.{subst}

module _ {D R E : Type 0} (engine : Engine D R E) (d0 : D)
    (read_same : (d : D) (sql : Text)
      → is_read_only sql ≡ true
      → (engine.exec background d sql).0 ≡ d)
    (failed_same : (d : D) (sql : Text) (e : E)
      → (apply engine d sql).1 ≡ some e
      → (apply engine d sql).0 ≡ d)
    (cfg : Config D) (mode : cfg.mode ≡ wal) where
  module _ (k : ℕ) (room : suc k < 2 ^ 64) (c : Conn D)
      (durable : IsDurable engine d0 k c.db c.writer) where
    tx-Same :
        (tx tx' : Database D) (sqls : List Text)
        → Same engine tx tx'
        → TxOk engine d0 c.db (some tx) sqls
        → TxOk engine d0 c.db (some tx') sqls
    tx-Same tx tx' sqls (t, r, b) (le, runs, fits, writes) = (
      omega (arith, b, le),
      (λ e. subst (λ (x : D). Runs engine c.db.tables sqls x) (sym t) (runs (sym b ∙ e))),
      fits,
      writes,
    )

    tx-Wrote :
        (tx tx' : Database D) (sqls : List Text) (raw : Text)
        → Wrote engine tx raw tx'
        → all_fit (raw ∷ []) ≡ true
        → is_write_sql raw ≡ true
        → TxOk engine d0 c.db (some tx) sqls
        → TxOk engine d0 c.db (some tx') (sqls ++ (raw ∷ []))
    tx-Wrote tx tx' sqls raw (ran, r, b) fit write (le, runs, fits, writes) = (
      omega (arith, b, le),
      (λ e.
          Runs-append engine c.db.tables tx.tables tx'.tables sqls (raw ∷ []) (runs (sym b ∙ e))
            ran),
      all_fit-append sqls (raw ∷ []) fits fit,
      AllWrites-append sqls raw writes write,
    )

    buffered-Ok :
        (tx : Database D) (raw : Text) (x : Database D × Answer R E)
        → Ran engine tx raw x
        → all_fit (raw ∷ []) ≡ true
        → TxOk engine d0 c.db (some tx) c.session.tx_sql
        → Ok engine d0 k c (buffered ⦃engine = engine⦄ cfg c raw x).0
    unfolding buffered
    buffered-Ok tx raw (db, failed e) same fit ok =
        session-Ok engine d0 cfg mode k room c durable (record c.session { tx = some db })
          (tx-Same tx db c.session.tx_sql same ok)
    buffered-Ok tx raw (db, done r) (inl (b, same)) fit ok =
        let read : is_write_sql raw ≡ false = unfold is_write_sql in ap not b in
        rw (buffered, read)
          (session-Ok engine d0 cfg mode k room c durable (record c.session { tx = some db })
            (tx-Same tx db c.session.tx_sql same ok))
    buffered-Ok tx raw (db, done r) (inr (b, wrote)) fit ok =
        let write : is_write_sql raw ≡ true = unfold is_write_sql in ap not b in
        elim (Bool-cases (reached cfg.limits.max_tx_statements (length c.session.tx_sql))) [
          | inl full ↦
              rw (buffered, write, full) (session-Ok engine d0 cfg mode k room c durable no_tx tt)
          | inr free ↦
              rw (buffered, write, free)
                (session-Ok engine d0 cfg mode k room c durable
                  (record { tx = some db; tx_sql = c.session.tx_sql ++ (raw ∷ []) })
                  (tx-Wrote tx db c.session.tx_sql raw wrote fit write ok))
        ]

    run_statement-Ok :
        (ev : Event E) (tx : Option (Database D))
        → c.session.tx ≡ tx
        → all_fit (ev.sql ∷ []) ≡ true
        → TxOk engine d0 c.db tx c.session.tx_sql
        → Ok engine d0 k c (run_statement ⦃engine = engine⦄ cfg (calm ev) c ev.sql tx).0
    unfolding run_statement
    run_statement-Ok ev none idle fit ok =
        direct-Ok engine d0 cfg mode k room c durable ev.sql
          (exec_with_options ⦃engine = engine⦄ ev.early ev.late background c.db ev.sql)
          (exec_with_options-Ran engine read_same failed_same ev.early ev.late c.db ev.sql) fit idle
    run_statement-Ok ev (some tx) active fit ok =
        buffered-Ok tx ev.sql
          (exec_with_options ⦃engine = engine⦄ ev.early ev.late background tx ev.sql)
          (exec_with_options-Ran engine read_same failed_same ev.early ev.late tx ev.sql) fit ok

    pub exec_one-Ok :
        (ev : Event E)
        → all_fit (ev.sql ∷ []) ≡ true
        → TxOk engine d0 c.db c.session.tx c.session.tx_sql
        → Ok engine d0 k c (exec_one ⦃engine = engine⦄ cfg (calm ev) c ev.sql).0
    unfolding exec_one
    exec_one-Ok ev fit ok = elim (Bool-cases (equal_fold (trim_space ev.sql) (codes "BEGIN"))) [
      | inl b ↦ rw (exec_one, b) (begin_tx-Ok engine d0 cfg mode k room c durable c.session.tx ok)
      | inr b ↦ elim (Bool-cases (equal_fold (trim_space ev.sql) (codes "ROLLBACK"))) [
        | inl r ↦
            rw (exec_one, b, r) (rollback_tx-Ok engine d0 cfg mode k room c durable c.session.tx ok)
        | inr r ↦ elim (Bool-cases (equal_fold (trim_space ev.sql) (codes "COMMIT"))) [
          | inl m ↦
              rw (exec_one, b, r, m)
                (commit_tx-Ok engine d0 cfg mode k room c durable c.session.tx ok ok)
          | inr m ↦ rw (exec_one, b, r, m) (run_statement-Ok ev c.session.tx refl fit ok)
        ]
      ]
    ]
