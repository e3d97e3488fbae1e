-- ===== src/Storage/Format/RoundTrip.antt =====
-- A frame reads back as what was put in, whatever bytes follow it.
use super_db.Prelude.Bytes.{put_uint32, uint32-put_uint32}
use super_db.Prelude.{
  ℕ, Text, ◌≡◌, ◌⊎◌, ◌≤◌, length, ◌++◌, ◌+◌, text_eq, ◌<◌, ◌^◌, arith, take-append_length,
  length-append, if◌then◌else◌, take, true, ◌==◌, Bool, Bool-cases, inl, none, inr, ◌∷◌, suc, ap,
  zero, [], refl, Option-cases, ltb, drop-append_length, ltb→le,
}
use super_db.Storage.Format.{
  ok, Zlib, decode_at, frame, unpack, attach, snapshot_kind, wal_kind, max_payload_size,
  checksum_version, checksum_stored, IsInverse, valid_frame_version, check_frame, version,
  wal_version, encode_frame, decode_frame,
}

pub checksum_stored_lt : (s : Text) → checksum_stored s < 2 ^ 32
unfolding checksum_stored
checksum_stored_lt s = omega arith

pub length-frame :
    (kind fv raw : ℕ) (stored : Text)
    → length (frame kind fv raw stored)
      ≡ (if fv == checksum_version then 24 else 20) + length stored
unfolding frame put_uint32
length-frame kind fv raw stored = elim (Bool-cases (fv == checksum_version)) [
  | inl b ↦ rw b (omega arith)
  | inr b ↦ rw b (omega arith)
]

version_cases :
    (kind fv : ℕ)
    → valid_frame_version kind fv ≡ true
    → (fv ≡ checksum_version) ⊎ (fv ≡ version) ⊎ ((fv ≡ wal_version) × (kind ≡ wal_kind))
unfolding valid_frame_version
version_cases kind fv valid = ground arith

take_over : (n : ℕ) (xs : Text) → length xs ≤ n → take n xs ≡ xs
take_over zero [] h = refl
take_over zero (x ∷ xs) h = absurd (omega arith)
take_over (suc n) [] h = refl
take_over (suc n) (x ∷ xs) h = ap (◌∷◌ x) (take_over n xs (omega arith))

-- The two frame layouts, with the checksum and without.
module _ (z : Zlib) (kind raw : ℕ) (stored rest : Text)
    (known : (kind ≡ snapshot_kind) ⊎ (kind ≡ wal_kind)) (raw_fits : raw ≤ max_payload_size)
    (stored_fits : length stored ≤ max_payload_size) where
  decode_at-checksum :
      decode_at z (frame kind checksum_version raw stored ++ rest) kind
      ≡ attach (24 + length stored) (unpack z kind checksum_version raw stored)
  unfolding decode_at frame put_uint32 text_eq valid_frame_version unpack
  decode_at-checksum = ground (
    arith,
    uint32-put_uint32 raw (omega arith),
    uint32-put_uint32 (length stored) (omega arith),
    uint32-put_uint32 (checksum_stored stored) (checksum_stored_lt stored),
    take-append_length stored rest,
    length-append stored rest,
  )

  decode_at-version :
      decode_at z (frame kind version raw stored ++ rest) kind
      ≡ attach (20 + length stored) (unpack z kind version raw stored)
  unfolding decode_at frame put_uint32 text_eq valid_frame_version unpack
  decode_at-version = ground (
    arith,
    uint32-put_uint32 raw (omega arith),
    uint32-put_uint32 (length stored) (omega arith),
    take-append_length stored rest,
    length-append stored rest,
  )

  decode_at-wal_version :
      kind ≡ wal_kind
      → decode_at z (frame kind wal_version raw stored ++ rest) kind
        ≡ attach (20 + length stored) (unpack z kind wal_version raw stored)
  unfolding decode_at frame put_uint32 text_eq valid_frame_version unpack
  decode_at-wal_version log = ground (
    arith,
    uint32-put_uint32 raw (omega arith),
    uint32-put_uint32 (length stored) (omega arith),
    take-append_length stored rest,
    length-append stored rest,
  )

  pub decode_at-frame :
      (fv : ℕ)
      → valid_frame_version kind fv ≡ true
      → decode_at z (frame kind fv raw stored ++ rest) kind
        ≡ attach (length (frame kind fv raw stored)) (unpack z kind fv raw stored)
  decode_at-frame fv valid = elim (version_cases kind fv valid) [
    | inl e ↦ rw (e, length-frame) decode_at-checksum
    | inr (inl e) ↦ rw (e, length-frame) decode_at-version
    | inr (inr (e, log)) ↦ rw (e, length-frame) (decode_at-wal_version log)
  ]

-- What `encodeFrame` stores comes back from `unpack`.
module _ (z : Zlib) (inverse : IsInverse z) (kind fv : ℕ) (payload : Text) where
  unpack_stored :
      (compress : Bool)
      → (kind ≡ snapshot_kind) ⊎ (kind ≡ wal_kind)
      → check_frame kind fv payload compress ≡ none
      → valid_frame_version kind fv ≡ true
      → unpack z kind fv (length payload) (if compress then z.deflate payload else payload)
        ≡ ok payload
  unfolding unpack check_frame valid_frame_version
  unpack_stored compress known checked valid = ground (
    arith,
    inverse payload (length payload + 1),
    take_over (length payload + 1) payload (omega arith),
  )

module _ (z : Zlib) (inverse : IsInverse z) (kind fv : ℕ) (payload : Text) (compress : Bool)
    (enc : Text) where
  -- Where reading a compressed stream gives back what was compressed: of a snapshot or log frame of a
  -- readable version that `encodeFrame` makes, `decodeFrame` gives back
  -- the payload and the offset behind the frame, whatever stands in front of it and behind it.
  pub decode_frame-encode_frame :
      (before rest : Text)
      → (kind ≡ snapshot_kind) ⊎ (kind ≡ wal_kind)
      → valid_frame_version kind fv ≡ true
      → encode_frame z kind fv payload compress ≡ ok enc
      → decode_frame z (before ++ (enc ++ rest)) (length before) kind
        ≡ ok (payload, length before + length enc)
  unfolding encode_frame decode_frame
  decode_frame-encode_frame before rest known valid made =
      elim (Option-cases (check_frame kind fv payload compress)) [
        | inr (e, bad) ↦ absurd (ground (arith, bad, made))
        | inl checked ↦ elim (Bool-cases (ltb max_payload_size (length stored))) [
          | inl big ↦ absurd (ground (arith, checked, big, made))
          | inr fits ↦
              let same : frame kind fv (length payload) stored ≡ enc =
                ground (arith, checked, fits, made) in
              rw (drop-append_length before (enc ++ rest)) (
                rw (← same) (
                  rw (
                    decode_at-frame z kind (length payload) stored rest known
                        (check_frame_fits checked) (ltb→le max_payload_size (length stored) fits) fv
                        valid,
                    unpack_stored z inverse kind fv payload compress known checked valid,
                  )))
        ]
      ]
    where
      stored : Text
      stored = if compress then z.deflate payload else payload

      check_frame_fits :
          check_frame kind fv payload compress ≡ none → length payload ≤ max_payload_size
      check_frame_fits checked = unfold check_frame in ground arith
