-- ===== src/Storage/Log/Replay.antt =====
-- Replaying a log runs the statements that were appended to it.
use super_db.Strings.{split_lines, trim_space}
use super_db.Storage.Format.RoundTrip.{length-frame, decode_at-frame}
use super_db.Prelude.{
  List, Text, Option, length, ◌++◌, ◌≡◌, true, ℕ, ◌+◌, ◌∷◌, ◌≤◌, arith, sym, ◌<◌, [], append_assoc,
  drop-append_length, length-append, suc, le→ltb, refl, inr, zero, ltb, lt→ltb, ltb→le,
  Option-cases, inl, some, text_eq, none, append-nil,
}
use super_db.Storage.Format.{
  Zlib, decode_frame, unpack, wal_kind, checksum_version, max_payload_size, frame, ok,
  valid_frame_version,
}
use super_db.Storage.Log.{
  record_of, encode_records, all_fit, append, replay_frames, replay_wal, run_from, ReplayError,
  synced, replay_lines,
}

length-record_of : (sql : Text) → length (record_of sql) ≡ 24 + length sql
unfolding record_of
length-record_of sql = length-frame wal_kind checksum_version (length sql) sql

pub encode_records-append :
    (xs ys : List Text) → encode_records (xs ++ ys) ≡ encode_records xs ++ encode_records ys
unfolding encode_records
encode_records-append [] ys = refl
encode_records-append (x ∷ xs) ys =
    rw (encode_records-append xs ys)
      (sym (append_assoc (record_of x) (encode_records xs) (encode_records ys)))

pub all_fit-append :
    (xs ys : List Text) → all_fit xs ≡ true → all_fit ys ≡ true → all_fit (xs ++ ys) ≡ true
unfolding all_fit
all_fit-append [] ys h k = k
all_fit-append (x ∷ xs) ys h k = ground (arith, all_fit-append xs ys)

length-encode_records : (sqls : List Text) → length sqls ≤ length (encode_records sqls)
unfolding encode_records
length-encode_records [] = omega arith
length-encode_records (sql ∷ sqls) = omega (
  arith,
  length-encode_records sqls,
  length-append (record_of sql) (encode_records sqls),
  length-record_of sql,
)

module _ (z : Zlib) where
  decode_record :
      (before : Text) (sql rest : Text)
      → length sql ≤ max_payload_size
      → decode_frame z (before ++ (record_of sql ++ rest)) (length before) wal_kind
        ≡ ok (sql, length before + length (record_of sql))
  unfolding decode_frame record_of unpack valid_frame_version
  decode_record before sql rest fits = rw (drop-append_length before (record_of sql ++ rest)) (
      rw
        (decode_at-frame z wal_kind (length sql) sql rest (inr refl) fits fits checksum_version
          refl)
        (ground arith))

module _ {S E : Type 0} (z : Zlib) (apply : S → Text → S × Option E) where
  replay_frames-encode_records :
      (f : ℕ) (before : Text) (sqls : List Text) (n : ℕ) (s : S)
      → length sqls < f
      → all_fit sqls ≡ true
      → replay_frames z apply f (before ++ encode_records sqls) (length before) n s
        ≡ run_from z apply n s sqls
  unfolding replay_frames run_from encode_records all_fit
  replay_frames-encode_records zero before sqls n s h fit = absurd (omega arith)
  replay_frames-encode_records (suc f) before [] n s h fit = rw (
    le→ltb (length before) (length (before ++ [])) (omega (arith, length-append before [])),
    replay_frames,
  )
  replay_frames-encode_records (suc f) before (sql ∷ sqls) n s h fit =
      let inside : ltb (length before) (length (before ++ (record_of sql ++ encode_records sqls)))
          ≡ true =
        lt→ltb _ _ (
          omega (
            arith,
            length-append before (record_of sql ++ encode_records sqls),
            length-append (record_of sql) (encode_records sqls),
            length-record_of sql,
          )) in
      let fits : length sql ≤ max_payload_size =
        ltb→le max_payload_size (length sql) (ground arith) in
      rw (inside, replay_frames)
        (rw (decode_record z before sql (encode_records sqls) fits, replay_frames)
          (elim (Option-cases (apply s sql).1) [
            | inr (e, bad) ↦ rw (bad, replay_frames, run_from)
            | inl good ↦
                rw (good, replay_frames, run_from)
                  (resume (
                    replay_frames-encode_records f (before ++ record_of sql) sqls (n + 1)
                      (apply s sql).0 (omega arith) (ground arith)))
          ]))
    where
      resume :
          {r : S × Option (ReplayError E)}
          → replay_frames z apply f
              ((before ++ record_of sql) ++ encode_records sqls)
              (length (before ++ record_of sql))
              (n + 1)
              (apply s sql).0
            ≡ r
          → replay_frames z apply f
              (before ++ (record_of sql ++ encode_records sqls))
              (length before + length (record_of sql))
              (n + 1)
              (apply s sql).0
            ≡ r
      resume e =
          rw
            (
              append_assoc before (record_of sql) (encode_records sqls),
              length-append before (record_of sql),
            )
            at e

module _ {S E : Type 0} (z : Zlib) (apply : S → Text → S × Option E) where
  pub replay_wal-encode_records :
      (sqls : List Text) (s : S)
      → all_fit sqls ≡ true
      → replay_wal z apply (some (encode_records sqls)) s ≡ run_from z apply 1 s sqls
  unfolding replay_wal encode_records record_of frame text_eq run_from split_lines replay_lines
      trim_space
  replay_wal-encode_records [] s fit = refl
  replay_wal-encode_records (sql ∷ sqls) s fit =
      replay_frames-encode_records z apply (length (encode_records (sql ∷ sqls)) + 1) []
        (sql ∷ sqls) 1 s (omega (arith, length-encode_records (sql ∷ sqls))) fit

  file-append :
      (old sqls : List Text) (file : Text)
      → append (some (encode_records old)) sqls synced ≡ (some file, none)
      → (file ≡ encode_records (old ++ sqls)) × (all_fit sqls ≡ true)
  unfolding append all_fit
  file-append old [] file e = (rw append-nil (ground arith), refl)
  file-append old (sql ∷ sqls) file e =
      (ground (arith, encode_records-append old (sql ∷ sqls)), ground arith)

  -- A log that holds the records of `old`, each within the size limit, with `sqls` appended, synced and acknowledged, replays as
  -- these statements in turn, with nothing lost, added or reordered, up to the first that fails.
  pub replay_wal-append :
      (old sqls : List Text) (file : Text) (s : S)
      → all_fit old ≡ true
      → append (some (encode_records old)) sqls synced ≡ (some file, none)
      → replay_wal z apply (some file) s ≡ run_from z apply 1 s (old ++ sqls)
  replay_wal-append old sqls file s fit e =
      let (same, fit') = file-append old sqls file e in
      rw same (replay_wal-encode_records (old ++ sqls) s (all_fit-append old sqls fit fit'))
