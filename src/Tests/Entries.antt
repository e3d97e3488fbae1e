-- ===== src/Tests/Entries.antt =====
-- Committed entries over a small engine, and keywords in a statement.
use super_db.Cluster.State.Atomic.{apply_committed_rollback}
use super_db.Prelude.{
  ℕ, Text, nat_eq, text_instance, List, codes, true, ◌≡◌, Option, ◌∷◌, [], none, some, ◌++◌, refl,
}
use super_db.Cluster.State.{
  ReplicatedState, Entry, apply_committed, exec_all, exec_entry, exec_locked, exec_atomic, admits,
}

-- An engine that keeps its statements and refuses the empty one
abbrev keep : List Text → Text → List Text × Option ℕ
keep db [] = (db, none)
keep db (c ∷ s) = (db ++ ((c ∷ s) ∷ []), some 1)

abbrev start : ReplicatedState (List Text)
start = record {
  db = codes "A" ∷ [];
  ranges = record { ranges = []; assign = []; next_id = 1 };
  has_wal = true;
  wal = [];
  index = 4;
}

-- Its second statement fails.
abbrev broken : Entry
broken = record {
  kind = exec_entry;
  range_id = 0;
  generation = 0;
  atomic = true;
  sqls = codes "B" ∷ [] ∷ [];
  op = none;
}

abbrev whole : Entry
whole = record broken { sqls = codes "B" ∷ codes "C" ∷ [] }

apply_committed_rollback_example :
    (apply_committed keep 5 start broken).0 ≡ record start { index = 5 }
unfolding apply_committed exec_locked exec_atomic exec_all admits
apply_committed_rollback_example = apply_committed_rollback keep 5 start broken refl refl refl
