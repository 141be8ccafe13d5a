-- ===== src/Capture/Jpeg/Dimensions.antt =====
-- The scan of an image terminates, stays within its bytes, and finds the size in the first frame
-- header behind any other segments.
use edge_weapon_detection_pl.Base.{
  ℕ, zero, suc, ◌+◌, ◌*◌, ◌/◌, ◌%◌, ◌^◌, ◌<◌, ◌≤◌, ◌≡◌, ◌≢◌, inl, inr, ◌||◌, Bool-cases, refl, ap,
  arith, true, false, not, List, [], ◌∷◌, ◌++◌, length, take, drop, ltb, nat_beq, ◌∙◌,
  length-append, length-drop, drop-append_of, take-append_of,
}
use mathlib.Core.List.{append_assoc}
use edge_weapon_detection_pl.Protocol.Bytes.{length-big_endian, from_bytes-big_endian}
use edge_weapon_detection_pl.Protocol.{big_endian, from_bytes, from_bytes_onto}
use edge_weapon_detection_pl.Capture.Jpeg.{
  is_sof, is_bare, Turn, go_on, give_up, found, turn, running, dimensions, scan,
  parse_jpeg_dimensions, follow, starts_with_soi,
}

-- A turn that goes on has used at least one byte.
turn_shrinks : (bytes later : List ℕ) → turn bytes ≡ go_on later → length later < length bytes
unfolding turn
turn_shrinks [] later h = cc
turn_shrinks (a ∷ []) later h = cc
turn_shrinks (a ∷ marker ∷ rest) later h =
    ground (arith, length-drop (from_bytes (take 2 rest)) rest)

abbrev Settles : ℕ → ℕ → List ℕ → Type 0
Settles turns more bytes = ((scan turns bytes ≡ running) → ⊥) × (scan more bytes ≡ scan turns bytes)

follow-Settles :
    (turns more : ℕ) (t : Turn)
    → ((later : List ℕ) → t ≡ go_on later → Settles turns more later)
    → ((follow (scan turns) t ≡ running) → ⊥) × (follow (scan more) t ≡ follow (scan turns) t)
follow-Settles turns more (go_on later) h = h later refl
follow-Settles turns more give_up h = ((λ r. cc), refl)
follow-Settles turns more (found width height) h = ((λ r. cc), refl)

-- With more turns than bytes, the scan has returned, and more turns change nothing.
scan-Settles :
    (turns more : ℕ) (bytes : List ℕ)
    → length bytes < turns
    → turns ≤ more
    → Settles turns more bytes
unfolding scan
scan-Settles zero more bytes h k = absurd (omega arith)
scan-Settles (suc turns) zero bytes h k = absurd (omega arith)
scan-Settles (suc turns) (suc more) bytes h k = follow-Settles turns more (turn bytes) (λ later e.
    scan-Settles turns more later (let s = turn_shrinks bytes later e in omega arith) (omega arith))

-- A segment of an image before its frame header: a marker that is no frame header and has a length,
-- and the bytes behind the length.
pub record Segment : Type 0 where
  pub marker : ℕ
  pub content : List ℕ
  pub plain : is_sof marker ≡ false
  pub long : is_bare marker ≡ false
  pub no_fill : nat_beq marker 0xff ≡ false
  pub fits : 2 + length content < 256 ^ 2

abbrev pub segment_bytes : Segment → List ℕ
segment_bytes s = 0xff ∷ s.marker ∷ big_endian 2 (2 + length s.content) ++ s.content

-- The frame header: its marker, its length, the precision, and the two sizes.
abbrev pub header_bytes : ℕ → ℕ → ℕ → ℕ → ℕ → List ℕ
header_bytes marker size precision width height =
    0xff ∷ marker ∷ big_endian 2 size ++ (precision ∷ big_endian 2 height ++ big_endian 2 width)

abbrev pub image_bytes : List Segment → List ℕ → List ℕ
image_bytes [] tail = tail
image_bytes (s ∷ segments) tail = segment_bytes s ++ image_bytes segments tail

drop_segment :
    (s : Segment) (tail : List ℕ)
    → drop (2 + length s.content) (big_endian 2 (2 + length s.content) ++ (s.content ++ tail))
      ≡ tail
drop_segment s tail =
    let digits = big_endian 2 (2 + length s.content) in
    rw (← append_assoc digits s.content tail) (
      drop-append_of (digits ++ s.content) tail
        (omega (arith, length-append digits s.content, length-big_endian 2 (2 + length s.content))))

segment_turn : (s : Segment) (tail : List ℕ) → turn (segment_bytes s ++ tail) ≡ go_on tail
unfolding turn
segment_turn s tail =
    let size = 2 + length s.content in
    let digits = big_endian 2 size in
    rw (s.no_fill, s.long, append_assoc digits s.content tail)
      (rw
        (
          take-append_of digits (s.content ++ tail) (length-big_endian 2 size),
          from_bytes-big_endian 2 size s.fits,
        )
        (ground (
          arith,
          s.plain,
          drop_segment s tail,
          length-append digits (s.content ++ tail),
          length-big_endian 2 size,
        )))

-- A frame header that is complete: its marker is one, and its sizes fit their fields.
pub record IsHeader (marker size width height : ℕ) : Type 0 where
  pub is_frame : is_sof marker ≡ true
  pub size_fits : size < 256 ^ 2
  pub size_holds : 2 ≤ size
  pub width_fits : width < 256 ^ 2
  pub height_fits : height < 256 ^ 2

sof_marker :
    (marker : ℕ) → is_sof marker ≡ true → (nat_beq marker 0xff ≡ false) × (is_bare marker ≡ false)
unfolding is_sof is_bare
sof_marker marker h = ground arith

two_bytes : (n : ℕ) → n < 256 ^ 2 → (0 * 256 + n / 256 % 256) * 256 + n % 256 ≡ n
two_bytes n h = omega arith

header_turn :
    (marker size precision width height : ℕ) (tail : List ℕ)
    → IsHeader marker size width height
    → turn (header_bytes marker size precision width height ++ tail) ≡ found width height
unfolding turn big_endian from_bytes from_bytes_onto
header_turn marker size precision width height tail h =
    let (no_fill, long) = sof_marker marker h.is_frame in
    ground (
      arith,
      no_fill,
      long,
      two_bytes size h.size_fits,
      two_bytes width h.width_fits,
      two_bytes height h.height_fits,
    )

image_scan :
    (segments : List Segment) (turns marker size precision width height : ℕ) (tail : List ℕ)
    → IsHeader marker size width height
    → length segments ≤ turns
    → scan
        (suc turns)
        (image_bytes segments (header_bytes marker size precision width height ++ tail))
      ≡ dimensions width height
unfolding scan
image_scan [] turns marker size precision width height tail h k =
    ap (λ t. follow (scan turns) t) (header_turn marker size precision width height tail h)
image_scan (s ∷ segments) zero marker size precision width height tail h k = absurd (omega arith)
image_scan (s ∷ segments) (suc turns) marker size precision width height tail h k =
    ap (λ t. follow (scan (suc turns)) t)
      (segment_turn s
        (image_bytes segments (header_bytes marker size precision width height ++ tail)))
    ∙ image_scan segments turns marker size precision width height tail h (omega arith)

length-image_bytes :
    (segments : List Segment) (tail : List ℕ)
    → length segments + length tail ≤ length (image_bytes segments tail)
length-image_bytes [] tail = omega arith
length-image_bytes (s ∷ segments) tail = omega (
  arith,
  length-append (segment_bytes s) (image_bytes segments tail),
  length-image_bytes segments tail,
)

not_short : (n : ℕ) → 2 ≤ n → ltb (suc (suc n)) 4 ≡ false
not_short n h = ground arith

parse_started :
    (body : List ℕ)
    → 2 ≤ length body
    → parse_jpeg_dimensions (0xff ∷ 0xd8 ∷ body) ≡ scan (suc (suc (length body))) body
unfolding parse_jpeg_dimensions
parse_started body long = rw (not_short (length body) long) refl

-- An image that starts with any segments that hold no frame header, and goes on with a frame header,
-- is read as the width and height that this header holds, whatever stands behind it.
pub parse_jpeg_dimensions-image :
    (segments : List Segment) (marker size precision width height : ℕ) (tail : List ℕ)
    → IsHeader marker size width height
    → parse_jpeg_dimensions (
        0xff
        ∷ 0xd8
        ∷ image_bytes segments (header_bytes marker size precision width height ++ tail))
      ≡ dimensions width height
unfolding parse_jpeg_dimensions
parse_jpeg_dimensions-image segments marker size precision width height tail h =
    let header = header_bytes marker size precision width height ++ tail in
    let body = image_bytes segments header in
    let long : length segments + 2 ≤ length body =
      omega (arith, length-image_bytes segments header) in
    parse_started body (omega arith)
    ∙ image_scan segments (suc (length body)) marker size precision width height tail h
        (omega arith)

-- The scan of any bytes returns: it finds sizes or reports that it finds none.
pub parse_jpeg_dimensions-returns : (bytes : List ℕ) → parse_jpeg_dimensions bytes ≢ running
unfolding parse_jpeg_dimensions
parse_jpeg_dimensions-returns bytes r =
    elim (Bool-cases (ltb (length bytes) 4 || not (starts_with_soi bytes))) [
      | inl refused ↦ absurd (ground arith)
      | inr begun ↦
          let long : 4 ≤ length bytes = ground arith in
          (scan-Settles (length bytes) (length bytes) (drop 2 bytes)
              (omega (arith, length-drop 2 bytes)) (omega arith)).0
            (ground arith)
    ]
