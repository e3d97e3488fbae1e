-- ===== src/Storage/Format.antt =====
-- internal/storage/format.go: frames with a header, a length, and from version 3 on a checksum.
pub mod RoundTrip
use Prim.Native.Nat.{bit_xor}
use super_db.Prelude.{
  Text, ℕ, Bool, Option, drop, if◌then◌else◌, not, suc, ◌++◌, ◌+◌, ◌∷◌, ◌≡◌, [], some, ◌%◌, ◌==◌,
  length, ltb, take, true, zero, ◌&&◌, ◌/◌, ◌^◌, leb, text_eq, none, ◌||◌,
}
use super_db.Prelude.Bytes.{put_uint32, uint32}

-- compress/zlib. `inflate z n` is what reading at most `n` bytes of the stream `z` gives; `none` is an
-- error on opening, reading or closing it.
pub record Zlib : Type 0 where
  pub deflate : Text → Text
  pub inflate : Text → ℕ → Option Text

-- What reading a compressed stream must give back.
abbrev pub IsInverse : Zlib → Type 0
IsInverse z = (p : Text) (n : ℕ) → z.inflate (z.deflate p) n ≡ some (take n p)

abbrev pub magic : Text
magic = 83 ∷ 85 ∷ 80 ∷ 69 ∷ 82 ∷ 68 ∷ 66 ∷ 49 ∷ []

-- `version`, `walVersion`, `checksumVersion`
abbrev pub version : ℕ
version = 1

abbrev pub wal_version : ℕ
wal_version = 2

abbrev pub checksum_version : ℕ
checksum_version = 3

abbrev pub snapshot_kind : ℕ
snapshot_kind = 83

abbrev pub wal_kind : ℕ
wal_kind = 87

abbrev pub header_size : ℕ
header_size = 20

abbrev pub checksum_header_size : ℕ
checksum_header_size = 24

abbrev pub max_payload_size : ℕ
max_payload_size = 268435456

pub data FormatError : Type 0 where
  invalid_snapshot_version snapshot_not_compressed v1_log_not_compressed log_not_raw : FormatError
  payload_too_large compressed_too_large : FormatError
  truncated_header invalid_magic unexpected_kind unsupported_version : FormatError
  truncated_checksum_header truncated_payload checksum_mismatch length_mismatch : FormatError
  bad_stream : FormatError

pub data Result {ℓ} (A : Type ℓ) : Type ℓ where
  ok : A → Result A
  err : FormatError → Result A

-- hash/crc32 with the Castagnoli table, one bit at a time.
crc_bits : ℕ → ℕ → ℕ
crc_bits zero c = c
crc_bits (suc n) c = crc_bits n (if c % 2 == 1 then bit_xor (c / 2) 0x82f63b78 else c / 2)

crc_bytes : ℕ → Text → ℕ
crc_bytes c [] = c
crc_bytes c (b ∷ s) = crc_bytes (crc_bits 8 (bit_xor c b)) s

-- `checksumStored`: a uint32
unfoldable pub checksum_stored : Text → ℕ
unfolding crc_bytes crc_bits
checksum_stored s = bit_xor (crc_bytes 0xffffffff s) 0xffffffff % 2 ^ 32

unfoldable pub valid_frame_version : ℕ → ℕ → Bool
valid_frame_version kind frame_version =
    if frame_version == version
    then true
    else if frame_version == wal_version
    then kind == wal_kind
    else frame_version == checksum_version

-- the tests at the top of `encodeFrame`
unfoldable pub check_frame : ℕ → ℕ → Text → Bool → Option FormatError
check_frame kind frame_version payload compress =
    if kind == snapshot_kind && frame_version == wal_version
    then some invalid_snapshot_version
    else if kind == snapshot_kind && not compress
    then some snapshot_not_compressed
    else if kind == wal_kind && frame_version == version && not compress
    then some v1_log_not_compressed
    else if kind == wal_kind && leb wal_version frame_version && compress
    then some log_not_raw
    else if ltb max_payload_size (length payload)
    then some payload_too_large
    else none

-- The bytes of a frame: header, checksum from version 3 on, stored payload.
unfoldable pub frame : ℕ → ℕ → ℕ → Text → Text
frame kind frame_version raw_length stored =
    magic
    ++ (kind ∷ frame_version ∷ 0 ∷ 0 ∷ [])
    ++ put_uint32 raw_length
    ++ put_uint32 (length stored)
    ++ (if frame_version == checksum_version then put_uint32 (checksum_stored stored) else [])
    ++ stored

-- b[i], where the length is known to suffice
abbrev pub byte_at : Text → ℕ → ℕ
byte_at [] i = 0
byte_at (b ∷ s) zero = b
byte_at (b ∷ s) (suc i) = byte_at s i

abbrev pub uint32_at : Text → ℕ → ℕ
uint32_at h i = uint32 (byte_at h i) (byte_at h (i + 1)) (byte_at h (i + 2)) (byte_at h (i + 3))

abbrev pub attach : ℕ → Result Text → Result (Text × ℕ)
attach end (ok p) = ok (p, end)
attach end (err e) = err e

abbrev pub shift : ℕ → Result (Text × ℕ) → Result (Text × ℕ)
shift offset (ok (p, end)) = ok (p, offset + end)
shift offset (err e) = err e

module _ (z : Zlib) where
  unfoldable pub encode_frame : ℕ → ℕ → Text → Bool → Result Text
  encode_frame kind frame_version payload compress =
      let stored = if compress then z.deflate payload else payload in
      elim (check_frame kind frame_version payload compress) [
        | some e ↦ err e
        | none ↦
            if ltb max_payload_size (length stored)
            then err compressed_too_large
            else ok (frame kind frame_version (length payload) stored)
      ]

  unfoldable pub encode : ℕ → Text → Result Text
  encode kind payload = encode_frame kind checksum_version payload (not (kind == wal_kind))

  -- The stored bytes of a frame whose header passed, with the expected length of the payload.
  unfoldable pub unpack : ℕ → ℕ → ℕ → Text → Result Text
  unpack kind frame_version raw_length stored =
      if kind == wal_kind && leb wal_version frame_version
      then (if length stored == raw_length then ok stored else err length_mismatch)
      else elim (z.inflate stored (raw_length + 1)) [
        | none ↦ err bad_stream
        | some payload ↦ if length payload == raw_length then ok payload else err length_mismatch
      ]

  -- `decodeFrame` at the bytes from `offset` on: the payload and the length of the frame.
  unfoldable pub decode_at : Text → ℕ → Result (Text × ℕ)
  decode_at h expected_kind =
      let frame_version = byte_at h 9 in
      let size = if frame_version == checksum_version then checksum_header_size else header_size in
      let raw_length = uint32_at h 12 in
      let stored_length = uint32_at h 16 in
      let end = size + stored_length in
      let stored = take stored_length (drop size h) in
      if ltb (length h) header_size
      then err truncated_header
      else if not (text_eq (take 8 h) magic)
      then err invalid_magic
      else if not (byte_at h 8 == expected_kind)
      then err unexpected_kind
      else if not (valid_frame_version expected_kind frame_version)
      then err unsupported_version
      else if frame_version == checksum_version && ltb (length h) checksum_header_size
      then err truncated_checksum_header
      else if ltb max_payload_size raw_length || ltb max_payload_size stored_length
      then err payload_too_large
      else if ltb (length h) end
      then err truncated_payload
      else if frame_version == checksum_version && not (uint32_at h 20 == checksum_stored stored)
      then err checksum_mismatch
      else attach end (unpack expected_kind frame_version raw_length stored)

  unfoldable pub decode_frame : Text → ℕ → ℕ → Result (Text × ℕ)
  decode_frame b offset expected_kind = shift offset (decode_at (drop offset b) expected_kind)
