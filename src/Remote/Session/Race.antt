-- ===== src/Remote/Session/Race.antt =====
-- Two connections that write at once: running a statement and putting it behind the log are two steps.
use super_db.Engine.Outcome.{background}
use super_db.Engine.Commit.{Database, Engine, exec_with_options}
use super_db.Remote.Session.{Config, persist_statements}
use super_db.Storage.Log.{Writer, synced}
use super_db.Prelude.{Text, none, ◌∷◌, []}

-- The writer that persistStatements leaves, on a disk that takes what it is given
abbrev pub logged : {D : Type 0} → Config D → Database D → Text → Writer → Writer
logged cfg db sql w = (persist_statements cfg synced (sql ∷ []) db w).0

module _ {D R E : Type 0} (engine : Engine D R E) where
  -- `ExecWithOptions` of a statement that no context ends
  abbrev pub ran : Database D → Text → Database D
  ran db sql = (exec_with_options ⦃engine = engine⦄ none none background db sql).0
