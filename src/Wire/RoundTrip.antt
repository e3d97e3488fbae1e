-- ===== src/Wire/RoundTrip.antt =====
-- What is written as a frame is read back, and what is read is within the protocol's limits.
use super_db.Prelude.Bytes.{uint64, uint32-put_uint32}
use super_db.Prelude.{
  ℕ, Text, ◌<◌, ◌^◌, ◌≡◌, ◌++◌, ◌/◌, ◌%◌, arith, length, ◌≤◌, text_eq, take-append_length,
  drop-append_length, length-append,
}
use super_db.Wire.{ok, encode_frame, write_frame, read_frame, max_frame_size, version}

uint64-put_uint64 :
    (n : ℕ)
    → n < 2 ^ 64
    → uint64
        (n / 2 ^ 32 / 2 ^ 24 % 256)
        (n / 2 ^ 32 / 2 ^ 16 % 256)
        (n / 2 ^ 32 / 256 % 256)
        (n / 2 ^ 32 % 256)
        (n / 2 ^ 24 % 256)
        (n / 2 ^ 16 % 256)
        (n / 256 % 256)
        (n % 256)
      ≡ n
uint64-put_uint64 n h = omega arith

-- A written frame whose request id is a uint64, with any bytes behind it, is read back as its type, its request and its payload, and
-- those bytes are left in the stream.
pub read_frame-write_frame :
    (msg_type request_id : ℕ) (payload frame rest : Text)
    → request_id < 2 ^ 64
    → write_frame msg_type request_id payload ≡ ok frame
    → read_frame (frame ++ rest)
      ≡ ok (
        record {
          version = version;
          type = msg_type;
          flags = 0;
          request_id = request_id;
          length = length payload;
        },
        payload,
        rest,
      )
unfolding write_frame
read_frame-write_frame msg_type request_id payload frame rest id written =
    let small : length payload ≤ max_frame_size = ground arith in
    let same : encode_frame msg_type request_id payload ≡ frame = ground arith in
    rw (← same) (
      unfold encode_frame read_frame text_eq in
      ground (
        arith,
        uint64-put_uint64 request_id id,
        uint32-put_uint32 (length payload) (omega arith),
        take-append_length payload rest,
        drop-append_length payload rest,
        length-append payload rest,
      ))
