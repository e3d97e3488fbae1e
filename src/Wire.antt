-- ===== src/Wire.antt =====
-- internal/wire/wire.go: the hosted protocol's frames, read from and written to byte streams.
pub mod RoundTrip
pub mod Limits
use super_db.Prelude.{
  Text, ℕ, if◌then◌else◌, ◌++◌, ◌∷◌, [], ltb, not, length, text_eq, take, ◌%◌, ◌==◌, drop, ◌^◌,
}
use super_db.Prelude.Bytes.{put_uint16, put_uint32, put_uint64, uint16, uint64, uint32}

abbrev pub magic : Text
magic = 83 ∷ 68 ∷ 66 ∷ 49 ∷ []

-- `Version`, `HeaderLen`, `MaxFrameSize`
abbrev pub version : ℕ
version = 1

abbrev pub header_len : ℕ
header_len = 20

abbrev pub max_frame_size : ℕ
max_frame_size = 16777216

pub record Header : Type 0 where
  pub version : ℕ  -- uint16
  pub type : ℕ  -- uint8
  pub flags : ℕ  -- uint8
  pub request_id : ℕ  -- uint64
  pub length : ℕ  -- uint32

pub data WireError : Type 0 where
  short_read bad_magic unsupported_flags frame_too_large payload_too_large : WireError
  version_error : ℕ → WireError

pub data Result {ℓ} (A : Type ℓ) : Type ℓ where
  ok : A → Result A
  err : WireError → Result A

-- `EncodeFrame`; the length field is a uint32.
unfoldable pub encode_frame : ℕ → ℕ → Text → Text
unfolding put_uint16 put_uint32 put_uint64
encode_frame msg_type request_id payload =
    magic
    ++ (put_uint16 version
        ++ ((msg_type ∷ 0 ∷ [])
            ++ (put_uint64 request_id ++ (put_uint32 (length payload % 2 ^ 32) ++ payload))))

-- `WriteFrame`: the bytes that one write is given
unfoldable pub write_frame : ℕ → ℕ → Text → Result Text
write_frame msg_type request_id payload =
    if ltb max_frame_size (length payload)
    then err payload_too_large
    else ok (encode_frame msg_type request_id payload)

-- `WriteFrameRaw`: the bytes that its two writes are given
unfoldable pub write_frame_raw : ℕ → ℕ → Text → Result (Text × Text)
unfolding put_uint16 put_uint32 put_uint64
write_frame_raw msg_type request_id payload =
    if ltb max_frame_size (length payload)
    then err payload_too_large
    else ok (
      magic
          ++ (put_uint16 version
              ++ ((msg_type ∷ 0 ∷ [])
                  ++ (put_uint64 request_id ++ put_uint32 (length payload % 2 ^ 32)))),
      payload,
    )

-- the checks on a header that was read in full, in their order, and the stream behind it
unfoldable pub check_header : Header → Text → Text → Result (Header × Text)
check_header h mark rest =
    if not (text_eq mark magic)
    then err bad_magic
    else if not (h.version == version)
    then err (version_error h.version)
    else if not (h.flags == 0)
    then err unsupported_flags
    else if ltb max_frame_size h.length
    then err frame_too_large
    else ok (h, rest)

-- `ReadHeader`: the header and the rest of the stream
unfoldable pub read_header : Text → Result (Header × Text)
unfolding check_header
read_header
      (m0 ∷ m1 ∷ m2 ∷ m3 ∷ v0 ∷ v1 ∷ t ∷ f ∷ i0 ∷ i1 ∷ i2 ∷ i3 ∷ i4 ∷ i5 ∷ i6 ∷ i7 ∷ l0 ∷ l1 ∷ l2
        ∷ l3 ∷ rest) =
    check_header
      (record {
        version = uint16 v0 v1;
        type = t;
        flags = f;
        request_id = uint64 i0 i1 i2 i3 i4 i5 i6 i7;
        length = uint32 l0 l1 l2 l3;
      })
      (m0 ∷ m1 ∷ m2 ∷ m3 ∷ []) rest
read_header _ = err short_read

-- the payload behind a header, and the rest of the stream
read_payload : Result (Header × Text) → Result (Header × Text × Text)
read_payload (err e) = err e
read_payload (ok (h, s)) =
    if ltb (length s) h.length then err short_read else ok (h, take h.length s, drop h.length s)

-- `ReadFrame`
unfoldable pub read_frame : Text → Result (Header × Text × Text)
unfolding read_header read_payload
read_frame s = read_payload (read_header s)
