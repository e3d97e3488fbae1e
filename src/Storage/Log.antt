-- ===== src/Storage/Log.antt =====
-- internal/storage/wal.go: appending records to the log, and replaying it.
pub mod Replay
use super_db.Strings.{trim_space, split_lines}
use super_db.Prelude.{
  List, Option, Text, ℕ, Bool, length, none, some, ◌∷◌, if◌then◌else◌, suc, true, ◌++◌, ◌+◌, [],
  ltb, take, text_eq, false, zero,
}
use super_db.Storage.Format.{
  Zlib, frame, decode_frame, wal_kind, checksum_version, max_payload_size, FormatError, magic, err,
  ok,
}

-- What `file.Write` and `file.Sync` did: everything was written and synced, or the first `n` bytes
-- reached the file and an error came back.
pub data Disk : Type 0 where
  synced : Disk
  failed : ℕ → Disk

pub data LogError : Type 0 where
  payload_too_large closed write_failed : LogError

-- `WALWriter`: the open file's bytes, or none once it is closed.
abbrev pub Writer : Type 0
Writer = Option Text

-- One record, with its checksum written in place.
unfoldable pub record_of : Text → Text
record_of sql = frame wal_kind checksum_version (length sql) sql

unfoldable pub encode_records : List Text → Text
encode_records [] = []
encode_records (sql ∷ sqls) = record_of sql ++ encode_records sqls

unfoldable pub all_fit : List Text → Bool
all_fit [] = true
all_fit (sql ∷ sqls) = if ltb max_payload_size (length sql) then false else all_fit sqls

write : Writer → Text → Disk → Writer × Option LogError
write none bytes disk = (none, some closed)
write (some file) bytes synced = (some (file ++ bytes), none)
write (some file) bytes (failed n) = (some (file ++ take n bytes), some write_failed)

-- `WALWriter.Append`
unfoldable pub append : Writer → List Text → Disk → Writer × Option LogError
unfolding all_fit encode_records write
append w [] disk = (w, none)
append w (sql ∷ sqls) disk =
    if all_fit (sql ∷ sqls)
    then write w (encode_records (sql ∷ sqls)) disk
    else (w, some payload_too_large)

-- What replaying ends with: the number of the record that failed, or none.
pub data ReplayError (E : Type 0) : Type 0 where
  bad_record : ℕ → FormatError → ReplayError E
  bad_statement : ℕ → E → ReplayError E
  out_of_fuel : ReplayError E

-- `apply` runs one statement on the state.
module _ {S E : Type 0} (z : Zlib) (apply : S → Text → S × Option E) where
  -- the loop over frames; every frame has a header, so the file's length is enough fuel
  unfoldable pub replay_frames : ℕ → Text → ℕ → ℕ → S → S × Option (ReplayError E)
  replay_frames zero b offset n s = (s, some out_of_fuel)
  replay_frames (suc f) b offset n s = elim (ltb offset (length b)) [
    | false ↦ (s, none)
    | true ↦ elim (decode_frame z b offset wal_kind) [
      | err e ↦ (s, some (bad_record n e))
      | ok (payload, next) ↦
          let (s', failure) = apply s payload in
          elim failure [
            | some e ↦ (s', some (bad_statement n e))
            | none ↦ replay_frames f b next (n + 1) s'
          ]
    ]
  ]

  -- the loop over the lines of a legacy log
  unfoldable pub replay_lines : List Text → ℕ → S → S × Option (ReplayError E)
  replay_lines [] n s = (s, none)
  replay_lines (line ∷ lines) n s =
      let (s', failure) = apply s (trim_space line) in
      elim (text_eq (trim_space line) []) [
        | true ↦ replay_lines lines (n + 1) s
        | false ↦ elim failure [
          | some e ↦ (s', some (bad_statement n e))
          | none ↦ replay_lines lines (n + 1) s'
        ]
      ]

  -- `ReplayWAL`; `none` is a file that does not exist
  unfoldable pub replay_wal : Option Text → S → S × Option (ReplayError E)
  replay_wal none s = (s, none)
  replay_wal (some b) s =
      if text_eq (take 8 b) magic
      then replay_frames (length b + 1) b 0 1 s
      else replay_lines (split_lines b) 1 s

  -- What replaying is for: the statements in turn, up to the first that fails.
  unfoldable pub run_from : ℕ → S → List Text → S × Option (ReplayError E)
  run_from n s [] = (s, none)
  run_from n s (sql ∷ sqls) =
      let (s', failure) = apply s sql in
      elim failure [ some e ↦ (s', some (bad_statement n e)) | none ↦ run_from (n + 1) s' sqls ]
