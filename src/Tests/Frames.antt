-- ===== src/Tests/Frames.antt =====
-- Frames of the hosted protocol, written and read.
use super_db.Wire.{Header, encode_frame, write_frame, read_frame, ok}
use super_db.Prelude.{Text, codes, ◌≡◌, ◌++◌, arith, refl}
use super_db.Wire.RoundTrip.{read_frame-write_frame}

abbrev query : Text
query = codes "GO"

-- The header of an EXEC request
abbrev head : Header
head = record { version = 1; type = 3; flags = 0; request_id = 9; length = 2 }

read_frame-write_frame_example :
    read_frame (encode_frame 3 9 query ++ query) ≡ ok (head, query, query)
unfolding write_frame
read_frame-write_frame_example =
    read_frame-write_frame 3 9 query (encode_frame 3 9 query) query (omega arith) refl
