-- ===== src/Capture/Jpeg.antt =====
-- `parse_jpeg_dimensions` and `validate_snapshot_bytes` of detection/snapshot_capture.py.
pub mod Dimensions
use edge_weapon_detection_pl.Base.{
  ℕ, zero, suc, ◌+◌, Bool, true, false, ◌&&◌, ◌||◌, not, Option, none, some, List, [], ◌∷◌, length,
  take, drop, ltb, leb, nat_beq, if◌then◌else◌,
}
use edge_weapon_detection_pl.Protocol.{from_bytes}

abbrev between : ℕ → ℕ → ℕ → Bool
between lo hi c = leb lo c && leb c hi

-- marker in _SOF_MARKERS
unfoldable pub is_sof : ℕ → Bool
is_sof m = between 0xc0 0xc3 m || between 0xc5 0xc7 m || between 0xc9 0xcb m || between 0xcd 0xcf m

-- marker in _MARKERS_WITHOUT_LENGTH
unfoldable pub is_bare : ℕ → Bool
is_bare m = between 0xd0 0xd9 m

-- What one turn of the loop does: it goes on at a later byte, or returns.
pub data Turn : Type 0 where
  go_on : List ℕ → Turn
  give_up : Turn
  found : ℕ → ℕ → Turn

abbrev pub segment : ℕ → List ℕ → ℕ → Turn
segment marker rest seg_len =
    if ltb seg_len 2
    then give_up
    else if is_sof marker
    then (if ltb (length rest) 7
        then give_up
        else found (from_bytes (take 2 (drop 5 rest))) (from_bytes (take 2 (drop 3 rest))))
    else go_on (drop seg_len rest)

-- `rest` is data[i:]; the loop ends where less than two bytes are left.
unfoldable pub turn : List ℕ → Turn
unfolding is_sof is_bare from_bytes
turn [] = give_up
turn (a ∷ []) = give_up
turn (a ∷ marker ∷ rest) =
    if not (nat_beq a 0xff)
    then go_on (marker ∷ rest)
    else if nat_beq marker 0xff
    then go_on (marker ∷ rest)
    else if is_bare marker
    then go_on rest
    else if ltb (length rest) 2
    then give_up
    else segment marker rest (from_bytes (take 2 rest))

-- What the loop returns; `running` says that the turns were used up, which never happens.
pub data Scan : Type 0 where
  running : Scan
  undecodable : Scan
  dimensions : ℕ → ℕ → Scan

abbrev pub follow : (List ℕ → Scan) → Turn → Scan
follow continue (go_on later) = continue later
follow continue give_up = undecodable
follow continue (found width height) = dimensions width height

-- At most `turns` turns of the loop.
unfoldable pub scan : ℕ → List ℕ → Scan
unfolding turn
scan zero rest = running
scan (suc turns) rest = follow (λ later. scan turns later) (turn rest)

abbrev pub starts_with_soi : List ℕ → Bool
starts_with_soi [] = false
starts_with_soi (a ∷ []) = false
starts_with_soi (a ∷ b ∷ rest) = nat_beq a 0xff && nat_beq b 0xd8

-- Every turn leaves fewer bytes, so that their number bounds the turns.
unfoldable pub parse_jpeg_dimensions : List ℕ → Scan
unfolding scan
parse_jpeg_dimensions bytes =
    if ltb (length bytes) 4 || not (starts_with_soi bytes)
    then undecodable
    else scan (length bytes) (drop 2 bytes)

pub data SnapshotRejection : Type 0 where
  empty_payload oversized_file invalid_jpeg_magic undecodable_dimensions : SnapshotRejection

abbrev pub starts_with_magic : List ℕ → Bool
starts_with_magic (a ∷ b ∷ c ∷ rest) = nat_beq a 0xff && nat_beq b 0xd8 && nat_beq c 0xff
starts_with_magic bytes = false

abbrev pub check_dimensions : Scan → Option SnapshotRejection
check_dimensions running = some undecodable_dimensions
check_dimensions undecodable = some undecodable_dimensions
check_dimensions (dimensions width height) =
    if ltb 0 width && ltb 0 height then none else some undecodable_dimensions

-- `none` is a payload that passes.
unfoldable pub validate_snapshot_bytes : List ℕ → ℕ → Option SnapshotRejection
unfolding parse_jpeg_dimensions
validate_snapshot_bytes bytes max_file_bytes =
    if nat_beq (length bytes) 0
    then some empty_payload
    else if ltb max_file_bytes (length bytes)
    then some oversized_file
    else if not (starts_with_magic bytes)
    then some invalid_jpeg_magic
    else check_dimensions (parse_jpeg_dimensions bytes)
