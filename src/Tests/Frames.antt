-- ===== src/Tests/Frames.antt =====
-- Frames of the socket protocol, written and read.
use edge_weapon_detection_pl.Base.{
  ℕ, ◌≡◌, ◌≤◌, ◌<◌, ◌+◌, refl, arith, true, some, List, [], ◌∷◌, ◌++◌, length, Option, none, String,
  nat_beq, if◌then◌else◌,
}
use edge_weapon_detection_pl.Protocol.{
  read_frame, frame, encode_frame, encode_snapshot_message, decode_snapshot_message,
  frame_kind_snapshot, frame_header_bytes, from_bytes,
}
use edge_weapon_detection_pl.Protocol.Frames.{
  read_frame-encode_frame, read_frame_bounds, decode-encode_snapshot_message,
}

-- the bytes of {}
abbrev payload : List ℕ
payload = 123 ∷ 125 ∷ []

abbrev wire : List ℕ
wire = 1 ∷ 0 ∷ 0 ∷ 0 ∷ 2 ∷ 123 ∷ 125 ∷ []

abbrev trailing : List ℕ
trailing = 3 ∷ 0 ∷ []

read_frame-encode_frame_example :
    read_frame (wire ++ trailing) 65536 true ≡ frame 1 payload trailing
unfolding encode_frame
read_frame-encode_frame_example =
    read_frame-encode_frame payload trailing 1 65536 true {wire = wire} refl (omega arith)
      (omega arith)

read_frame_bounds_example :
    (0 < length payload)
    × (length payload ≤ 65536)
    × (length (wire ++ trailing) ≡ frame_header_bytes + length payload + length trailing)
unfolding read_frame
read_frame_bounds_example =
    read_frame_bounds (wire ++ trailing) 65536 true {kind = 1} {body = payload} {rest = trailing}
      refl

-- A decoder that knows one text.
abbrev decode_one : List ℕ → Option String
decode_one bs = if nat_beq (from_bytes bs) 97 then some "a" else none

abbrev snapshot_wire : List ℕ
snapshot_wire = 2 ∷ 0 ∷ 0 ∷ 0 ∷ 5 ∷ 0 ∷ 1 ∷ 97 ∷ 255 ∷ 216 ∷ []

decode-encode_snapshot_message_example :
    (body : List ℕ) × (read_frame (snapshot_wire ++ trailing) 100 true
      ≡ frame frame_kind_snapshot body trailing)
    × (decode_snapshot_message decode_one body ≡ some ("a", 255 ∷ 216 ∷ []))
unfolding encode_snapshot_message from_bytes
decode-encode_snapshot_message_example =
    decode-encode_snapshot_message decode_one "a" (97 ∷ []) (255 ∷ 216 ∷ []) trailing 100
      {wire = snapshot_wire} refl refl (omega arith)
