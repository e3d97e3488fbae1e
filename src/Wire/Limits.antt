-- ===== src/Wire/Limits.antt =====
-- What a reader accepts is within the protocol's limits, and the two writers send the same bytes.
use super_db.Prelude.Bytes.{uint16, uint64, uint32}
use super_db.Prelude.{ℕ, Text, length, ◌≡◌, ◌≤◌, arith, List, ◌++◌, take, suc, ◌∷◌, [], zero, refl}
use super_db.Wire.{
  Header, ok, read_frame, read_header, check_header, read_payload, err, Result, write_frame,
  write_frame_raw, max_frame_size, version, encode_frame,
}

check_header_limits :
    (h h' : Header) (mark rest rest' : Text)
    → check_header h mark rest ≡ ok (h', rest')
    → (h'.version ≡ version) × (h'.flags ≡ 0) × (h'.length ≤ max_frame_size)
unfolding check_header
check_header_limits h h' mark rest rest' e = ground arith

read_header_limits :
    (s rest : Text) (h : Header)
    → read_header s ≡ ok (h, rest)
    → (h.version ≡ version) × (h.flags ≡ 0) × (h.length ≤ max_frame_size)
unfolding read_header
read_header_limits
      (m0 ∷ m1 ∷ m2 ∷ m3 ∷ v0 ∷ v1 ∷ t ∷ f ∷ i0 ∷ i1 ∷ i2 ∷ i3 ∷ i4 ∷ i5 ∷ i6 ∷ i7 ∷ l0 ∷ l1 ∷ l2
        ∷ l3 ∷ s)
      rest h e =
    check_header_limits
      (record {
        version = uint16 v0 v1;
        type = t;
        flags = f;
        request_id = uint64 i0 i1 i2 i3 i4 i5 i6 i7;
        length = uint32 l0 l1 l2 l3;
      })
      h (m0 ∷ m1 ∷ m2 ∷ m3 ∷ []) s rest e
read_header_limits _ rest h e = ground arith

length-take : {A : Type 0} (n : ℕ) (xs : List A) → n ≤ length xs → length (take n xs) ≡ n
length-take zero xs h = refl
length-take (suc n) [] h = absurd (omega arith)
length-take (suc n) (x ∷ xs) h = omega (arith, length-take n xs (omega arith))

read_payload_lem :
    (r : Result (Header × Text)) (h : Header) (payload rest : Text)
    → read_payload r ≡ ok (h, payload, rest)
    → (s : Text) × (r ≡ ok (h, s)) × (length payload ≡ h.length)
unfolding read_payload
read_payload_lem (err e) h payload rest eq = ground arith
read_payload_lem (ok (h', s)) h payload rest eq =
    (s, ground arith, ground (arith, length-take h'.length s))

-- A frame that is read has the protocol's version, no flags, and a payload of the length that its header
-- names, which is within the limit.
pub read_frame_limits :
    (s payload rest : Text) (h : Header)
    → read_frame s ≡ ok (h, payload, rest)
    → (h.version ≡ version)
      × (h.flags ≡ 0)
      × (length payload ≡ h.length)
      × (h.length ≤ max_frame_size)
unfolding read_frame
read_frame_limits s payload rest h e =
    let (t, got, len) = read_payload_lem (read_header s) h payload rest e in
    let (v, f, l) = read_header_limits s t h got in (v, f, len, l)

-- The bytes of both writes, one after the other
abbrev pub joined : Result (Text × Text) → Result Text
joined (ok (head, payload)) = ok (head ++ payload)
joined (err e) = err e

-- WriteFrameRaw sends the bytes that WriteFrame sends, and refuses what it refuses.
pub write_frame_raw_same :
    (msg_type request_id : ℕ) (payload : Text)
    → joined (write_frame_raw msg_type request_id payload) ≡ write_frame msg_type request_id payload
unfolding write_frame write_frame_raw encode_frame
write_frame_raw_same msg_type request_id payload = ground arith
