-- ===== src/Cluster/State.antt =====
-- internal/cluster/state.go: the state machine behind the log of committed entries. The engine is a
-- parameter: `exec` gives the database after a statement and the rows affected, or none on an error.
pub mod Atomic
use super_db.Prelude.{
  ℕ, Text, Bool, List, Option, false, inl, inr, none, some, true, if◌then◌else◌, ◌∷◌, ◌++◌, ◌+◌,
  ◌==◌, [], not, ◌&&◌,
}
use super_db.Cluster.Ranges.{RangeStore, RangeOp, Range, apply_op, by_id, err, ok}

-- The kinds of entries that are applied, and any other
pub data EntryKind : Type 0 where
  exec_entry range_entry other_entry : EntryKind

pub record Entry : Type 0 where
  pub kind : EntryKind
  pub range_id : ℕ
  pub generation : ℕ
  pub atomic : Bool
  pub sqls : List Text
  pub op : Option RangeOp

-- `wal` is the side copy of committed writes, where `has_wal` says that there is a path for it.
pub record ReplicatedState (D : Type 0) : Type 0 where
  pub db : D
  pub ranges : RangeStore
  pub has_wal : Bool
  pub wal : List Text
  pub index : ℕ

-- `EntryResult`: the rows affected, or a refusal
pub data EntryResult : Type 0 where
  done : ℕ → EntryResult
  refused : EntryResult

-- `appendWAL`, whose errors are ignored
unfoldable pub append_wal : {D : Type 0} → ReplicatedState D → List Text → ReplicatedState D
append_wal s [] = s
append_wal s (sql ∷ sqls) = if s.has_wal then record s { wal = s.wal ++ (sql ∷ sqls) } else s

-- `rangeLocked`
unfoldable pub range_locked :
    {D : Type 0} → ReplicatedState D → Entry → ReplicatedState D × EntryResult
range_locked s e = elim e.op [
  | none ↦ (s, refused)
  | some op ↦ elim (apply_op s.ranges op) [
    | err x ↦ (s, refused)
    | ok ranges ↦ (record s { ranges = ranges }, done 0)
  ]
]

-- the fence of `execLocked`
unfoldable pub admits : RangeStore → Entry → Bool
admits ranges e = if e.range_id == 0 then true else elim (by_id ranges e.range_id) [
  | err x ↦ false
  | ok r ↦ if not (e.generation == 0) && not (e.generation == r.generation) then false else true
]

module _ {D : Type 0} (exec : D → Text → D × Option ℕ) where
  -- the loop over e.SQLs
  unfoldable pub exec_all : D → List Text → ℕ → D × Option ℕ
  exec_all db [] n = (db, some n)
  exec_all db (sql ∷ sqls) n =
      let (db', result) = exec db sql in
      elim result [ none ↦ (db', none) | some k ↦ exec_all db' sqls (n + k) ]

  -- An atomic entry runs on a clone that is published at the end. Neither cloning nor publishing without
  -- a revision check and a callback can fail.
  unfoldable pub exec_atomic : ReplicatedState D → Entry → ReplicatedState D × EntryResult
  exec_atomic s e =
      let (clone, result) = exec_all s.db e.sqls 0 in
      elim result [
        | none ↦ (s, refused)
        | some n ↦ (append_wal (record s { db = clone }) e.sqls, done n)
      ]

  unfoldable pub exec_plain : ReplicatedState D → Entry → ReplicatedState D × EntryResult
  exec_plain s e =
      let (db, result) = exec_all s.db e.sqls 0 in
      elim result [
        | none ↦ (record s { db = db }, refused)
        | some n ↦ (append_wal (record s { db = db }) e.sqls, done n)
      ]

  -- `execLocked`
  unfoldable pub exec_locked : ReplicatedState D → Entry → ReplicatedState D × EntryResult
  exec_locked s e = elim (admits s.ranges e) [
    | false ↦ (s, refused)
    | true ↦ elim e.atomic [ true ↦ exec_atomic s e | false ↦ exec_plain s e ]
  ]

  -- s.index = idx
  abbrev pub advance : ℕ → ReplicatedState D × EntryResult → ReplicatedState D × EntryResult
  advance idx (s, r) = (record s { index = idx }, r)

  -- `applyCommitted`
  unfoldable pub apply_committed : ℕ → ReplicatedState D → Entry → ReplicatedState D × EntryResult
  apply_committed idx s e = elim e.kind [
    | exec_entry ↦ advance idx (exec_locked s e)
    | range_entry ↦ advance idx (range_locked s e)
    | other_entry ↦ (s, refused)
  ]
