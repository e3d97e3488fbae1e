-- ===== src/Remote/Session/System.antt =====
-- The sessions of a server, which share a database and its log.
use super_db.Engine.Outcome.{background}
use super_db.Engine.Commit.{Engine, Database}
use super_db.Remote.Session.{Config, Session, Conn, World, exec_one}
use super_db.Storage.Log.{Writer, synced}
use super_db.Prelude.{ℕ, Text, List, Option, none, some, ◌∷◌, [], get_elem?, set}

pub record System (D : Type 0) : Type 0 where
  pub db : Database D
  pub writer : Writer
  pub sessions : List (Session D)

-- A statement that session `at` sends; `early` and `late` are what its context's polls give before it runs
pub record Event (E : Type 0) : Type 0 where
  pub at : ℕ
  pub sql : Text
  pub early : Option E
  pub late : Option E

-- the scans run to their end, and the disk takes what it is given
abbrev pub calm : {E : Type 0} → Event E → World E
calm ev = record { early = ev.early; late = ev.late; ctx = background; disk = synced }

abbrev pub conn_of : {D : Type 0} → System D → Session D → Conn D
conn_of sys s = record { db = sys.db; writer = sys.writer; session = s }

abbrev pub put_back : {D : Type 0} → System D → ℕ → Conn D → System D
put_back sys i c = record { db = c.db; writer = c.writer; sessions = set sys.sessions i c.session }

module _ {D R E : Type 0} (engine : Engine D R E) (cfg : Config D) where
  unfoldable pub at_session : Event E → System D → Option (Session D) → System D
  at_session ev sys none = sys
  at_session ev sys (some s) =
      put_back sys ev.at (exec_one ⦃engine = engine⦄ cfg (calm ev) (conn_of sys s) ev.sql).0

  -- one statement, and then a sequence of them from any of the sessions
  unfoldable pub step : System D → Event E → System D
  unfolding at_session
  step sys ev = at_session ev sys (get_elem? sys.sessions ev.at)

  unfoldable pub run_system : System D → List (Event E) → System D
  unfolding step
  run_system sys [] = sys
  run_system sys (ev ∷ evs) = run_system (step sys ev) evs
