-- ===== src/Engine/Commit.antt =====
-- internal/engine/database.go and snapshot.go: statements that count revisions, clones, and the commit of
-- a clone. Each operation holds commitMu, so that it is one step.
pub mod Ran
use super_db.Strings.{trim_space}
use super_db.Engine.Fold.{has_prefix_fold}
use super_db.Engine.Outcome.{Context, background}
use super_db.Prelude.{
  ℕ, Text, Bool, Option, none, some, true, false, ◌||◌, ◌&&◌, not, ◌+◌, ◌%◌, ◌^◌, ◌==◌, codes,
  if◌then◌else◌,
}

pub data Answer (R E : Type 0) : Type 0 where
  done : R → Answer R E
  failed : E → Answer R E

-- What the transactions use of the statements: `exec` on the tables, with the tables after it, and
-- RowCount.
pub record Engine (D R E : Type 0) : Type 0 where
  pub exec : Context → D → Text → D × Answer R E
  pub row_count : D → ℕ

-- The fields of `Database` that count here; the revisions are uint64.
pub record Database (D : Type 0) : Type 0 where
  pub tables : D
  pub revision : ℕ
  pub base_revision : ℕ

-- `IsReadOnly`
unfoldable pub is_read_only : Text → Bool
is_read_only sql =
    let s = trim_space sql in
    has_prefix_fold s (codes "SELECT")
    || (has_prefix_fold s (codes "SHOW")
        || (has_prefix_fold s (codes "DESCRIBE") || has_prefix_fold s (codes "DESC")))

-- d.revision.Add(1)
unfoldable pub add_revision : ℕ → ℕ
add_revision n = (n + 1) % 2 ^ 64

module _ {D : Type 0} where
  -- `cloneImage`: a deep copy, with both revisions at zero
  unfoldable pub clone_image : Database D → Database D
  clone_image d = record { tables = d.tables; revision = 0; base_revision = 0 }

  -- `Clone`
  unfoldable pub clone : Database D → Database D
  clone d = record (clone_image d) { base_revision = d.revision }

  -- d.Tables = clone.Tables and d.revision.Add(1)
  unfoldable pub publish : Database D → D → Database D
  unfolding add_revision
  publish d tables = record d { tables = tables; revision = add_revision d.revision }

module _ {D R E : Type 0} ⦃engine : Engine D R E⦄ where
  finish : Database D → Bool → D × Answer R E → Database D × Answer R E
  unfolding publish
  finish d write (t, failed e) = (record d { tables = t }, failed e)
  finish d write (t, done r) = (if write then publish d t else record d { tables = t }, done r)

  -- `ExecWithOptions`; `early` and `late` are what ctx.Err gives at its two polls
  unfoldable pub exec_with_options :
      Option E → Option E → Context → Database D → Text → Database D × Answer R E
  unfolding finish
  exec_with_options (some e) late ctx d sql = (d, failed e)
  exec_with_options none (some e) ctx d sql = (d, failed e)
  exec_with_options none none ctx d sql =
      finish d (not (is_read_only sql)) (engine.exec ctx d.tables sql)

pub data CommitError (X : Type 0) : Type 0 where
  conflict : CommitError X
  persist_failed : X → CommitError X

-- `W` is what the callback writes to, and `X` its errors.
module _ {D W X : Type 0} where
  persisted : Database D → Database D → W × Option X → Database D × W × Option (CommitError X)
  unfolding publish
  persisted d image (w, some e) = (d, w, some (persist_failed e))
  persisted d image (w, none) = (publish d image.tables, w, none)

  -- `replace`, whose callback writes to `w`; `ReplaceFrom` does not check and has no callback
  unfoldable pub replace :
      Database D
      → Database D
      → Bool
      → (Database D → W → W × Option X)
      → W
      → Database D × W × Option (CommitError X)
  unfolding persisted clone_image
  replace d source check persist w =
      let image = clone_image source in
      if check && not (d.revision == source.base_revision)
      then (d, w, some conflict)
      else persisted d image (persist image w)

  -- `CommitFrom`
  unfoldable pub commit_from :
      Database D
      → Database D
      → (Database D → W → W × Option X)
      → W
      → Database D × W × Option (CommitError X)
  unfolding replace
  commit_from d source persist w = replace d source true persist w

unfoldable pub error_of : {D R E : Type 0} → D × Answer R E → D × Option E
error_of (t, done r) = (t, none)
error_of (t, failed e) = (t, some e)

module _ {D R E : Type 0} (engine : Engine D R E) where
  -- The statement that replaying runs: `db.Exec`, with its error
  unfoldable pub apply : D → Text → D × Option E
  unfolding error_of
  apply d sql = error_of (engine.exec background d sql)
