-- ===== src/Tests/Files.antt =====
-- Frames of the storage files and the log, written and read.
use super_db.Storage.Log.Replay.{replay_wal-append}
use super_db.Storage.Format.RoundTrip.{decode_frame-encode_frame}
use super_db.Storage.Log.{record_of, replay_wal, encode_records, run_from, all_fit, append}
use super_db.Storage.Format.{
  encode_frame, ok, IsInverse, Zlib, decode_frame, wal_kind, checksum_version, valid_frame_version,
  check_frame, frame,
}
use super_db.Prelude.{
  Text, List, codes, Option, refl, some, ◌++◌, ◌≡◌, length, take, ◌∷◌, [], none, ◌+◌, false, inr,
}

-- A compressor that stores its input
abbrev stored : Zlib
stored = record { deflate = λ p. p; inflate = λ p n. some (take n p) }

stored-IsInverse : IsInverse stored
stored-IsInverse p n = refl

abbrev query : Text
query = codes "GO"

-- The bytes of a record that holds `query`
abbrev log_frame : Text
log_frame = record_of query

decode_frame-encode_frame_example :
    decode_frame stored (query ++ (log_frame ++ query)) (length query) wal_kind
    ≡ ok (query, length query + length log_frame)
unfolding valid_frame_version encode_frame check_frame record_of frame
decode_frame-encode_frame_example =
    decode_frame-encode_frame stored stored-IsInverse wal_kind checksum_version query false
      log_frame query query (inr refl) refl refl

-- A statement runs by being kept.
abbrev keep : List Text → Text → List Text × Option (Unit {0})
keep s sql = (s ++ (sql ∷ []), none)

replay_wal-append_example :
    replay_wal stored keep (some (encode_records (query ∷ []) ++ encode_records (query ∷ []))) []
    ≡ run_from stored keep 1 [] (query ∷ query ∷ [])
unfolding all_fit append encode_records
replay_wal-append_example =
    replay_wal-append stored keep (query ∷ []) (query ∷ [])
      (encode_records (query ∷ []) ++ encode_records (query ∷ [])) [] refl refl
