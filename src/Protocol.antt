-- ===== src/Protocol.antt =====
-- The socket protocol between the Bridge and the Agent: agent/src/weapon_detection_agent/detection/
-- protocol.py, and `_read_frame` of detection/ingest_handler.py. `bytes` are lists of numbers.
pub mod Bytes
pub mod Frames
use edge_weapon_detection_pl.Base.{
  ℕ, zero, suc, ◌+◌, ◌*◌, ◌/◌, ◌%◌, ◌^◌, String, Bool, true, false, Option, none, some, List, [],
  ◌∷◌, ◌++◌, ◌≡◌, ltb, nat_beq, length, take, drop, if◌then◌else◌, ◌>>=◌, ◌&&◌,
}

abbrev pub frame_length_prefix_bytes : ℕ
frame_length_prefix_bytes = 4

abbrev pub frame_kind_prefix_bytes : ℕ
frame_kind_prefix_bytes = 1

abbrev pub frame_kind_detection : ℕ
frame_kind_detection = 1

abbrev pub frame_kind_snapshot : ℕ
frame_kind_snapshot = 2

abbrev pub frame_kind_acknowledgement : ℕ
frame_kind_acknowledgement = 3

abbrev pub frame_header_bytes : ℕ
frame_header_bytes = frame_kind_prefix_bytes + frame_length_prefix_bytes

abbrev pub max_frame_bytes : ℕ
max_frame_bytes = 65536

abbrev pub max_snapshot_frame_bytes : ℕ
max_snapshot_frame_bytes = 5 * 1024 * 1024 + 4096

abbrev pub snapshot_event_id_length_prefix_bytes : ℕ
snapshot_event_id_length_prefix_bytes = 2

-- The digits of `n` in base 256, the most significant one first, cut to `width` of them.
unfoldable pub big_endian : ℕ → ℕ → List ℕ
big_endian zero n = []
big_endian (suc width) n = big_endian width (n / 256) ++ (n % 256) ∷ []

-- n.to_bytes(width, "big"); `none` is the OverflowError of a number that does not fit
unfoldable pub to_bytes : ℕ → ℕ → Option (List ℕ)
unfolding big_endian
to_bytes n width = if ltb n (256 ^ width) then some (big_endian width n) else none

unfoldable pub from_bytes_onto : ℕ → List ℕ → ℕ
from_bytes_onto acc [] = acc
from_bytes_onto acc (b ∷ bs) = from_bytes_onto (acc * 256 + b) bs

-- int.from_bytes(bs, "big")
unfoldable pub from_bytes : List ℕ → ℕ
unfolding from_bytes_onto
from_bytes bs = from_bytes_onto 0 bs

unfoldable pub encode_frame : List ℕ → ℕ → Option (List ℕ)
unfolding to_bytes
encode_frame payload kind = do
  kind_byte ← to_bytes kind frame_kind_prefix_bytes
  size ← to_bytes (length payload) frame_length_prefix_bytes
  some (kind_byte ++ size ++ payload)

unfoldable pub decode_frame_header : List ℕ → ℕ × ℕ
unfolding from_bytes
decode_frame_header header = (
  from_bytes (take frame_kind_prefix_bytes header),
  from_bytes (drop frame_kind_prefix_bytes header),
)

-- The bytes of the event id are those that `str.encode` gives.
unfoldable pub encode_snapshot_message : List ℕ → List ℕ → Option (List ℕ)
unfolding to_bytes encode_frame
encode_snapshot_message event_id_bytes jpeg_bytes = do
  size ← to_bytes (length event_id_bytes) snapshot_event_id_length_prefix_bytes
  encode_frame (size ++ event_id_bytes ++ jpeg_bytes) frame_kind_snapshot

-- The split that precedes `bytes.decode`: the bytes of the event id, and the image.
unfoldable pub split_snapshot_body : List ℕ → List ℕ × List ℕ
unfolding from_bytes
split_snapshot_body body =
    let size = from_bytes (take snapshot_event_id_length_prefix_bytes body) in
    let rest = drop snapshot_event_id_length_prefix_bytes body in (take size rest, drop size rest)

-- `decode_utf8` is `bytes.decode("utf-8")`, `none` its UnicodeDecodeError.
unfoldable pub decode_snapshot_message :
    (List ℕ → Option String) → List ℕ → Option (String × List ℕ)
decode_snapshot_message decode_utf8 body = do
  let (event_id_bytes, jpeg_bytes) = split_snapshot_body body
  event_id ← decode_utf8 event_id_bytes
  some (event_id, jpeg_bytes)

-- Why a connection's frame is refused (`_FrameRejected.reason`).
pub data FrameRejection : Type 0 where
  zero_length_frame oversized_frame incomplete_payload unexpected_frame_kind : FrameRejection
  invalid_utf8 invalid_json invalid_json_shape unsupported_schema_version : FrameRejection
  malformed_snapshot_frame : FrameRejection

-- What one call of `_read_frame` does: `end` is its `None`, `disconnected` the
-- IncompleteReadError that passes through it. `frame` also holds what is left of the stream.
pub data ReadResult : Type 0 where
  end : ReadResult
  disconnected : ReadResult
  rejected : FrameRejection → ReadResult
  frame : ℕ → List ℕ → List ℕ → ReadResult

abbrev is_empty {ℓ} : {A : Type ℓ} → List A → Bool
is_empty [] = true
is_empty (x ∷ xs) = false

-- `reader.readexactly(length)` for the body, once the header is parsed.
unfoldable pub read_body : ℕ → ℕ → ℕ → List ℕ → ReadResult
read_body kind size max_bytes stream =
    if nat_beq size 0
    then rejected zero_length_frame
    else if ltb max_bytes size
    then rejected oversized_frame
    else if ltb (length stream) size
    then rejected incomplete_payload
    else frame kind (take size stream) (drop size stream)

-- `stream` is all that the peer sends until it closes the connection.
unfoldable pub read_frame : List ℕ → ℕ → Bool → ReadResult
unfolding read_body decode_frame_header
read_frame stream max_bytes allow_clean_eof =
    if ltb (length stream) frame_header_bytes
    then (if allow_clean_eof && is_empty stream then end else disconnected)
    else let (kind, size) = decode_frame_header (take frame_header_bytes stream) in
      read_body kind size max_bytes (drop frame_header_bytes stream)
