-- ===== src/Protocol/Frames.antt =====
-- What `encode_frame` and `encode_snapshot_message` write is what the reader on the other side of
-- the socket reads, and no frame is read beyond the bound.
use mathlib.Core.List.{append_assoc}
use edge_weapon_detection_pl.Base.{
  ℕ, ◌+◌, ◌^◌, ◌<◌, ◌≤◌, List, ◌++◌, ◌≡◌, refl, arith, length, length-append, Option, some, Bool,
  true, take-append_of, drop-append_of, take, drop, length-take, length-drop, String,
}
use edge_weapon_detection_pl.Protocol.Bytes.{length-big_endian, from_bytes-big_endian}
use edge_weapon_detection_pl.Protocol.{
  big_endian, to_bytes, encode_frame, decode_frame_header, read_frame, read_body,
  encode_snapshot_message, split_snapshot_body, decode_snapshot_message, frame_kind_snapshot,
  frame_header_bytes, frame,
}

pub to_bytes-eq-some :
    (n width : ℕ) {bs : List ℕ}
    → to_bytes n width ≡ some bs
    → (n < 256 ^ width) × (bs ≡ big_endian width n)
unfolding to_bytes
to_bytes-eq-some n width h = ground arith

-- A frame in its parts: kind and size fit their fields, and stand before the payload.
pub encode_frame-eq-some :
    (payload : List ℕ) (kind : ℕ) {wire : List ℕ}
    → encode_frame payload kind ≡ some wire
    → (kind < 256 ^ 1)
      × (length payload < 256 ^ 4)
      × (wire ≡ (big_endian 1 kind ++ big_endian 4 (length payload)) ++ payload)
unfolding encode_frame
encode_frame-eq-some payload kind h =
    ground (arith, append_assoc (big_endian 1 kind) (big_endian 4 (length payload)) payload)

pub decode_frame_header-big_endian :
    (kind size : ℕ)
    → kind < 256 ^ 1
    → size < 256 ^ 4
    → decode_frame_header (big_endian 1 kind ++ big_endian 4 size) ≡ (kind, size)
unfolding decode_frame_header
decode_frame_header-big_endian kind size hk hs = rw (
  take-append_of (big_endian 1 kind) (big_endian 4 size) (length-big_endian 1 kind),
  drop-append_of (big_endian 1 kind) (big_endian 4 size) (length-big_endian 1 kind),
  from_bytes-big_endian 1 kind hk,
  from_bytes-big_endian 4 size hs,
)

pub header_size : (kind size : ℕ) → length (big_endian 1 kind ++ big_endian 4 size) ≡ 5
header_size kind size = omega (
  arith,
  length-append (big_endian 1 kind) (big_endian 4 size),
  length-big_endian 1 kind,
  length-big_endian 4 size,
)

read_body-append :
    (kind max_bytes : ℕ) (payload rest : List ℕ)
    → 0 < length payload
    → length payload ≤ max_bytes
    → read_body kind (length payload) max_bytes (payload ++ rest) ≡ frame kind payload rest
unfolding read_body
read_body-append kind max_bytes payload rest positive fits = ground (
  arith,
  length-append payload rest,
  take-append_of {n = length payload} payload rest refl,
  drop-append_of {n = length payload} payload rest refl,
)

-- A frame that `encode_frame` wrote, with a payload that is not empty and within the bound, is
-- read back: its kind, its payload, and the stream behind it untouched.
pub read_frame-encode_frame :
    (payload rest : List ℕ) (kind max_bytes : ℕ) (allow_clean_eof : Bool) {wire : List ℕ}
    → encode_frame payload kind ≡ some wire
    → 0 < length payload
    → length payload ≤ max_bytes
    → read_frame (wire ++ rest) max_bytes allow_clean_eof ≡ frame kind payload rest
unfolding read_frame
read_frame-encode_frame payload rest kind max_bytes allow_clean_eof written positive fits =
    let (hk, hs, e) = encode_frame-eq-some payload kind written in
    let header = big_endian 1 kind ++ big_endian 4 (length payload) in
    rw (e, append_assoc header payload rest)
      (ground (
        arith,
        length-append header (payload ++ rest),
        header_size kind (length payload),
        take-append_of header (payload ++ rest) (header_size kind (length payload)),
        drop-append_of header (payload ++ rest) (header_size kind (length payload)),
        decode_frame_header-big_endian kind (length payload) hk hs,
        read_body-append kind max_bytes payload rest positive fits,
      ))

read_body_bounds :
    (kind size max_bytes : ℕ) (stream : List ℕ) {kind' : ℕ} {body rest : List ℕ}
    → read_body kind size max_bytes stream ≡ frame kind' body rest
    → (0 < length body) × (length body ≤ max_bytes) × (length stream ≡ length body + length rest)
unfolding read_body
read_body_bounds kind size max_bytes stream h =
    ground (arith, length-take size stream, length-drop size stream)

-- Whatever the stream, a frame that is read is not empty, keeps the bound, and takes exactly its
-- header and its body from the stream.
pub read_frame_bounds :
    (stream : List ℕ) (max_bytes : ℕ) (allow_clean_eof : Bool) {kind : ℕ} {body rest : List ℕ}
    → read_frame stream max_bytes allow_clean_eof ≡ frame kind body rest
    → (0 < length body)
      × (length body ≤ max_bytes)
      × (length stream ≡ frame_header_bytes + length body + length rest)
unfolding read_frame
read_frame_bounds stream max_bytes allow_clean_eof {kind} {body} {rest} h =
    let (k, size) = decode_frame_header (take frame_header_bytes stream) in
    let tail = drop frame_header_bytes stream in
    ground (
      arith,
      read_body_bounds k size max_bytes tail {kind' = kind} {body = body} {rest = rest},
      length-drop frame_header_bytes stream,
    )

split_snapshot_body-append :
    (size : ℕ) (ids image : List ℕ)
    → length ids ≡ size
    → size < 256 ^ 2
    → split_snapshot_body ((big_endian 2 size ++ ids) ++ image) ≡ (ids, image)
unfolding split_snapshot_body
split_snapshot_body-append size ids image e fits = rw (
  append_assoc (big_endian 2 size) ids image,
  take-append_of (big_endian 2 size) (ids ++ image) (length-big_endian 2 size),
  drop-append_of (big_endian 2 size) (ids ++ image) (length-big_endian 2 size),
  from_bytes-big_endian 2 size fits,
  take-append_of ids image e,
  drop-append_of ids image e,
)

abbrev snapshot_body : List ℕ → List ℕ → List ℕ
snapshot_body ids image = (big_endian 2 (length ids) ++ ids) ++ image

encode_snapshot_message-eq-some :
    (ids image : List ℕ) {wire : List ℕ}
    → encode_snapshot_message ids image ≡ some wire
    → (length ids < 256 ^ 2)
      × (encode_frame (snapshot_body ids image) frame_kind_snapshot ≡ some wire)
unfolding encode_snapshot_message
encode_snapshot_message-eq-some ids image h = ground arith

length-snapshot_body :
    (ids image : List ℕ) → length (snapshot_body ids image) ≡ 2 + length ids + length image
length-snapshot_body ids image = omega (
  arith,
  length-append (big_endian 2 (length ids) ++ ids) image,
  length-append (big_endian 2 (length ids)) ids,
  length-big_endian 2 (length ids),
)

-- A snapshot message that was encoded, and whose body keeps the reader's bound, arrives as a
-- snapshot frame, and its body splits into the bytes of the event id and the image.
pub decode-encode_snapshot_message :
    (decode_utf8 : List ℕ → Option String) (event_id : String) (id_bytes image rest : List ℕ)
    (max_bytes : ℕ) {wire : List ℕ}
    → decode_utf8 id_bytes ≡ some event_id
    → encode_snapshot_message id_bytes image ≡ some wire
    → 2 + length id_bytes + length image ≤ max_bytes
    → (body : List ℕ) × (read_frame (wire ++ rest) max_bytes true
        ≡ frame frame_kind_snapshot body rest)
      × (decode_snapshot_message decode_utf8 body ≡ some (event_id, image))
unfolding decode_snapshot_message
decode-encode_snapshot_message decode_utf8 event_id id_bytes image rest max_bytes decodes written
      fits =
    let (small, framed) = encode_snapshot_message-eq-some id_bytes image written in
    let size = length-snapshot_body id_bytes image in
    (
      snapshot_body id_bytes image,
      read_frame-encode_frame (snapshot_body id_bytes image) rest frame_kind_snapshot max_bytes true
          framed (omega arith) (omega arith),
      ground
          (arith, split_snapshot_body-append (length id_bytes) id_bytes image refl small, decodes),
    )
