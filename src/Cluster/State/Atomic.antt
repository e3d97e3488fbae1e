-- ===== src/Cluster/State/Atomic.antt =====
-- What an atomic entry leaves behind, and when the applied index moves.
use super_db.Prelude.{
  refl, Text, ℕ, Option, ◌≡◌, List, inl, inr, some, true, Bool-cases, Option-cases, arith, ◌∷◌, [],
}
use super_db.Cluster.State.{
  range_entry, other_entry, exec_entry, ReplicatedState, Entry, apply_committed, exec_all,
  append_wal, exec_atomic, exec_locked, exec_entry, refused, done, admits,
}

module _ {D : Type 0} (exec : D → Text → D × Option ℕ) where
  exec_atomic_refused :
      (s : ReplicatedState D) (e : Entry)
      → (exec_atomic exec s e).1 ≡ refused
      → (exec_atomic exec s e).0 ≡ s
  unfolding exec_atomic
  exec_atomic_refused s e h = elim (Option-cases (exec_all exec s.db e.sqls 0).1) [
    | inl n ↦ rw (exec_atomic, n) refl
    | inr (k, n) ↦ ground (arith, n, h)
  ]

  -- An atomic entry that is refused changes nothing but the applied index: no statement of it is left
  -- in the database, however many had succeeded.
  pub apply_committed_rollback :
      (idx : ℕ) (s : ReplicatedState D) (e : Entry)
      → e.kind ≡ exec_entry
      → e.atomic ≡ true
      → (apply_committed exec idx s e).1 ≡ refused
      → (apply_committed exec idx s e).0 ≡ record s { index = idx }
  unfolding apply_committed exec_locked
  apply_committed_rollback idx s e kind atomic h = elim (Bool-cases (admits s.ranges e)) [
    | inl a ↦
        let same : (exec_atomic exec s e).0 ≡ s =
          exec_atomic_refused s e (ground (arith, kind, a, atomic, h)) in
        ground (arith, kind, a, atomic, same)
    | inr a ↦ ground (arith, kind, a)
  ]

  db-append_wal : (s : ReplicatedState D) (sqls : List Text) → (append_wal s sqls).db ≡ s.db
  unfolding append_wal
  db-append_wal s [] = refl
  db-append_wal s (sql ∷ sqls) = ground arith

  exec_atomic-done :
      (s : ReplicatedState D) (e : Entry) (n : ℕ)
      → (exec_atomic exec s e).1 ≡ done n
      → exec_all exec s.db e.sqls 0 ≡ ((exec_atomic exec s e).0.db, some n)
  unfolding exec_atomic
  exec_atomic-done s e n h =
      ground (arith, h, db-append_wal (record s { db = (exec_all exec s.db e.sqls 0).0 }) e.sqls)

  -- An atomic entry that is done has run all of its statements, each on what the one before it left,
  -- and the database is what the last one left.
  pub apply_committed_all :
      (idx : ℕ) (s : ReplicatedState D) (e : Entry) (n : ℕ)
      → e.kind ≡ exec_entry
      → e.atomic ≡ true
      → (apply_committed exec idx s e).1 ≡ done n
      → exec_all exec s.db e.sqls 0 ≡ ((apply_committed exec idx s e).0.db, some n)
  unfolding apply_committed exec_locked
  apply_committed_all idx s e n kind atomic h =
      let ran = exec_atomic-done s e n in ground (arith, kind, atomic, h, ran)

  -- The applied index is the entry's after an entry of a known kind, refused or not, and stays after
  -- any other.
  pub apply_committed_index :
      (idx : ℕ) (s : ReplicatedState D) (e : Entry)
      → (apply_committed exec idx s e).0.index
        ≡ elim e.kind [ exec_entry ↦ idx | range_entry ↦ idx | other_entry ↦ s.index ]
  unfolding apply_committed
  apply_committed_index idx s e = ground arith
