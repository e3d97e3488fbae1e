-- ===== src/Remote/Session/Durable.antt =====
-- What the sessions have written is what the log replays: each statement of a session keeps that.
use super_db.Engine.Commit.{
  Engine, Database, Answer, clone, clone_image, commit_from, publish, add_revision, done, failed,
  conflict,
}
use super_db.Engine.Commit.Ran.{
  Runs, Runs-append, Ran, Same, commit_from-conflict, commit_from-published,
}
use super_db.Remote.Session.{
  Config, Session, Conn, wal, begin_tx, rollback_tx, commit_tx, commit_writes, committed, direct,
  logged, persist_statements, persist_in, write_statements, is_write_sql, no_tx, over,
}
use super_db.Storage.Log.{Writer, append, encode_records, all_fit, synced}
use super_db.Storage.Log.Replay.{encode_records-append, all_fit-append}
use super_db.Prelude.{
  ℕ, Text, List, Option, none, some, true, ◌∷◌, [], ◌++◌, ◌≡◌, ◌⊎◌, ◌≤◌, ◌<◌, refl, ap, ◌∙◌, sym,
  arith, inl, inr, suc, Bool-cases, ◌^◌, ◌==◌,
}
use mathlib.Core.Path.{subst}

-- Each statement writes.
abbrev pub AllWrites : List Text → Type 0
AllWrites [] = Unit
AllWrites (sql ∷ sqls) = (is_write_sql sql ≡ true) × AllWrites sqls

pub AllWrites-append :
    (xs : List Text) (sql : Text)
    → AllWrites xs
    → is_write_sql sql ≡ true
    → AllWrites (xs ++ (sql ∷ []))
AllWrites-append [] sql h w = (w, tt)
AllWrites-append (x ∷ xs) sql (v, h) w = (v, AllWrites-append xs sql h w)

write_statements-AllWrites : (xs : List Text) → AllWrites xs → write_statements xs ≡ xs
unfolding write_statements
write_statements-AllWrites [] h = refl
write_statements-AllWrites (x ∷ xs) (v, h) = rw v (ap (◌∷◌ x) (write_statements-AllWrites xs h))

-- Statements that fit are put behind the log.
pub persist-wal :
    {D : Type 0} (cfg : Config D) (log : List Text) (sql : Text) (sqls : List Text)
    (image : Database D)
    → cfg.mode ≡ wal
    → all_fit (sql ∷ sqls) ≡ true
    → persist_statements cfg synced (sql ∷ sqls) image (some (encode_records log))
      ≡ (some (encode_records (log ++ (sql ∷ sqls))), none)
unfolding persist_statements persist_in append
persist-wal cfg log sql sqls image mode fit =
    rw (mode, persist_in, fit, encode_records-append log (sql ∷ sqls)) refl

module _ {D R E : Type 0} (engine : Engine D R E) (d0 : D) where
  -- The log holds records that fit, and running them from the first tables gives the present ones.
  pub record IsDurable (k : ℕ) (db : Database D) (w : Writer) : Type 0 where
    pub log : List Text
    pub file : w ≡ some (encode_records log)
    pub fits : all_fit log ≡ true
    pub runs : Runs engine d0 log db.tables
    pub small : db.revision ≤ k

  -- A transaction's clone is no newer than the database, and where it is as new, its statements lead from
  -- the database to the clone.
  abbrev pub TxOk : Database D → Option (Database D) → List Text → Type 0
  TxOk db none sqls = Unit
  TxOk db (some tx) sqls =
      (tx.base_revision ≤ db.revision)
      × (tx.base_revision ≡ db.revision → Runs engine db.tables sqls tx.tables)
      × (all_fit sqls ≡ true)
      × AllWrites sqls

  abbrev pub Kept : Database D → Database D → Type 0
  Kept db db' =
      ((db'.tables ≡ db.tables) × (db'.revision ≡ db.revision)) ⊎ (db'.revision ≡ suc db.revision)

  pub TxOk-Kept :
      (db db' : Database D) (tx : Option (Database D)) (sqls : List Text)
      → Kept db db'
      → TxOk db tx sqls
      → TxOk db' tx sqls
  TxOk-Kept db db' none sqls kept ok = tt
  TxOk-Kept db db' (some tx) sqls (inl (t, r)) (le, runs, fit, writes) = (
    omega (arith, le, r),
    (λ e. subst (λ (x : D). Runs engine x sqls tx.tables) (sym t) (runs (e ∙ r))),
    fit,
    writes,
  )
  TxOk-Kept db db' (some tx) sqls (inr r) (le, runs, fit, writes) =
      (omega (arith, le, r), (λ e. absurd (omega (arith, e, r, le))), fit, writes)

  -- What one statement of a session keeps
  abbrev pub Ok : ℕ → Conn D → Conn D → Type 0
  Ok k c c' =
      IsDurable (suc k) c'.db c'.writer
      × TxOk c'.db c'.session.tx c'.session.tx_sql
      × Kept c.db c'.db

  later : (k : ℕ) (db : Database D) (w : Writer) → IsDurable k db w → IsDurable (suc k) db w
  later k db w h = record {
    log = h.log;
    file = h.file;
    fits = h.fits;
    runs = h.runs;
    small = omega (arith, h.small);
  }

  moved :
      (k : ℕ) (db db' : Database D) (w : Writer)
      → (db'.tables ≡ db.tables) × (db'.revision ≡ db.revision)
      → IsDurable k db w
      → IsDurable (suc k) db' w
  moved k db db' w (t, r) h = record {
    log = h.log;
    file = h.file;
    fits = h.fits;
    runs = subst (λ (x : D). Runs engine d0 h.log x) (sym t) h.runs;
    small = omega (arith, h.small, r);
  }

  add_revision_small : (k n : ℕ) → n ≤ k → suc k < 2 ^ 64 → add_revision n ≡ suc n
  unfolding add_revision
  add_revision_small k n h small = omega (arith, h, small)

  module _ (cfg : Config D) (mode : cfg.mode ≡ wal) (k : ℕ) (room : suc k < 2 ^ 64) (c : Conn D)
      (durable : IsDurable k c.db c.writer) where
    kept : Kept c.db c.db
    kept = inl (refl, refl)

    -- the session alone changes
    pub session-Ok : (s : Session D) → TxOk c.db s.tx s.tx_sql → Ok k c (record c { session = s })
    session-Ok s ok = (later k c.db c.writer durable, ok, kept)

    pub begin_tx-Ok :
        (tx : Option (Database D))
        → TxOk c.db c.session.tx c.session.tx_sql
        → Ok k c (begin_tx {R = R} {E = E} ⦃engine = engine⦄ cfg c tx).0
    unfolding begin_tx clone clone_image all_fit
    begin_tx-Ok (some tx) ok = session-Ok c.session ok
    begin_tx-Ok none ok =
        elim (Bool-cases (over cfg.limits.max_tx_database_rows (engine.row_count c.db.tables))) [
          | inl b ↦ rw (begin_tx, b) (session-Ok c.session ok)
          | inr b ↦
              rw (begin_tx, b)
                (session-Ok (record { tx = some (clone c.db); tx_sql = [] })
                  (omega arith, (λ e. refl), refl, tt))
        ]

    pub rollback_tx-Ok :
        (tx : Option (Database D))
        → TxOk c.db c.session.tx c.session.tx_sql
        → Ok k c (rollback_tx {R = R} {E = E} ⦃engine = engine⦄ cfg c tx).0
    unfolding rollback_tx
    rollback_tx-Ok none ok = session-Ok c.session ok
    rollback_tx-Ok (some tx) ok = session-Ok no_tx tt

    -- statements that were run on the database and put into the log
    published-Ok :
        (db : Database D) (s : Session D) (sqls : List Text)
        → Runs engine c.db.tables sqls db.tables
        → db.revision ≡ add_revision c.db.revision
        → all_fit sqls ≡ true
        → TxOk db s.tx s.tx_sql
        → Ok k c
            (record { db = db; writer = some (encode_records (durable.log ++ sqls)); session = s })
    published-Ok db s sqls runs rev fit ok =
        let next : db.revision ≡ suc c.db.revision =
          rev ∙ add_revision_small k c.db.revision durable.small room in
        (
          record {
            log = durable.log ++ sqls;
            file = refl;
            fits = all_fit-append durable.log sqls durable.fits fit;
            runs = Runs-append engine d0 c.db.tables db.tables durable.log sqls durable.runs runs;
            small = omega (arith, next, durable.small);
          },
          ok,
          inr next,
        )

    persisted-wal :
        (sql : Text) (sqls : List Text) (image : Database D)
        → all_fit (sql ∷ sqls) ≡ true
        → persist_statements cfg synced (sql ∷ sqls) image c.writer
          ≡ (some (encode_records (durable.log ++ (sql ∷ sqls))), none)
    persisted-wal sql sqls image fit =
        ap (persist_statements cfg synced (sql ∷ sqls) image) durable.file
        ∙ persist-wal cfg durable.log sql sqls image mode fit

    commit_writes-Ok :
        (tx : Database D) (sqls : List Text)
        → TxOk c.db (some tx) sqls
        → TxOk c.db c.session.tx c.session.tx_sql
        → Ok k c (commit_writes {R = R} {E = E} ⦃engine = engine⦄ cfg synced c tx sqls).0
    unfolding commit_writes committed publish
    commit_writes-Ok tx [] (le, runs, fit, writes) ok = session-Ok no_tx tt
    commit_writes-Ok tx (sql ∷ sqls) (le, runs, fit, writes) ok =
        elim (Bool-cases (c.db.revision == tx.base_revision)) [
          | inl b ↦
              let same : tx.base_revision ≡ c.db.revision = ground (arith, b) in
              let e : commit_from c.db tx
                    (λ image w. persist_statements cfg synced (sql ∷ sqls) image w) c.writer
                  ≡ (
                    publish c.db tx.tables,
                    some (encode_records (durable.log ++ (sql ∷ sqls))),
                    none,
                  ) =
                commit_from-published c.db tx
                  (λ image w. persist_statements cfg synced (sql ∷ sqls) image w) c.writer
                  (some (encode_records (durable.log ++ (sql ∷ sqls)))) b
                  (persisted-wal sql sqls (clone_image tx) fit) in
              rw (commit_writes, e)
                (published-Ok (publish c.db tx.tables) no_tx (sql ∷ sqls) (runs same) refl fit tt)
          | inr b ↦
              let e : commit_from c.db tx
                    (λ image w. persist_statements cfg synced (sql ∷ sqls) image w) c.writer
                  ≡ (c.db, c.writer, some conflict) =
                commit_from-conflict c.db tx
                  (λ image w. persist_statements cfg synced (sql ∷ sqls) image w) c.writer b in
              rw (commit_writes, e) (session-Ok c.session ok)
        ]

    pub commit_tx-Ok :
        (tx : Option (Database D))
        → TxOk c.db tx c.session.tx_sql
        → TxOk c.db c.session.tx c.session.tx_sql
        → Ok k c (commit_tx {R = R} {E = E} ⦃engine = engine⦄ cfg synced c tx).0
    unfolding commit_tx
    commit_tx-Ok none t ok = session-Ok c.session ok
    commit_tx-Ok (some tx) (le, runs, fit, writes) ok =
        rw (commit_tx, write_statements-AllWrites c.session.tx_sql writes)
          (commit_writes-Ok tx c.session.tx_sql (le, runs, fit, writes) ok)

    -- a statement that changed nothing
    Same-Ok :
        (db : Database D) (s : Session D)
        → Same engine c.db db
        → TxOk db s.tx s.tx_sql
        → Ok k c (record { db = db; writer = c.writer; session = s })
    Same-Ok db s (t, r, b) ok = (moved k c.db db c.writer (t, r) durable, ok, inl (t, r))

    pub direct-Ok :
        (raw : Text) (x : Database D × Answer R E)
        → Ran engine c.db raw x
        → all_fit (raw ∷ []) ≡ true
        → c.session.tx ≡ none
        → Ok k c (direct ⦃engine = engine⦄ cfg synced c raw x).0
    unfolding direct logged is_write_sql
    direct-Ok raw (db, failed e) same fit idle =
        Same-Ok db c.session same
          (subst (λ (tx : Option (Database D)). TxOk db tx c.session.tx_sql) (sym idle) tt)
    direct-Ok raw (db, done r) (inl (b, same)) fit idle =
        rw (direct, b)
          (Same-Ok db c.session same
            (subst (λ (tx : Option (Database D)). TxOk db tx c.session.tx_sql) (sym idle) tt))
    direct-Ok raw (db, done r) (inr (b, (runs, rev, base))) fit idle =
        rw (direct, b, persisted-wal raw [] db fit)
          (published-Ok db c.session (raw ∷ []) runs rev fit
            (subst (λ (tx : Option (Database D)). TxOk db tx c.session.tx_sql) (sym idle) tt))
