-- ===== src/Bridge/Reader/Exact.antt =====
-- However the bytes of a stream are cut into chunks, the reader takes exactly those that it asks for.
use mathlib.Core.List.{append_assoc, append-nil}
use edge_weapon_detection_pl.Base.{
  ℕ, zero, suc, ◌-◌, ◌≤◌, ◌<◌, ◌≡◌, refl, arith, sym, subst, ap, ◌∙◌, true, some, List, [], ◌∷◌,
  ◌++◌, length, take, drop, take-take, drop-drop, length-append, length-drop, drop-all,
  take-append_of, drop-append_of, true, false, some, ltb,
}
use edge_weapon_detection_pl.Bridge.Reader.{
  Incoming, arrived, raises, remaining, received, unavailable, recv_from, recv_exact,
  decode_acknowledgement, acknowledged, no_connection, after_header, after_parsed, read_one_frame,
}
use edge_weapon_detection_pl.Json.{Value}
use edge_weapon_detection_pl.Ingest.Connection.{Decoders, value}
use edge_weapon_detection_pl.Protocol.{
  encode_frame, big_endian, decode_frame_header, frame_kind_acknowledgement, frame_header_bytes,
  max_frame_bytes,
}
use edge_weapon_detection_pl.Protocol.Frames.{
  encode_frame-eq-some, decode_frame_header-big_endian, header_size,
}

-- The bytes that arrive, up to the first call that raises or finds the end.
abbrev pub stream_of : List Incoming → List ℕ
stream_of [] = []
stream_of (raises ∷ incoming) = []
stream_of (arrived [] ∷ incoming) = []
stream_of (arrived (b ∷ bs) ∷ incoming) = b ∷ bs ++ stream_of incoming

stream_of-remaining :
    (bs : List ℕ) (incoming : List Incoming)
    → stream_of (remaining bs incoming) ≡ bs ++ stream_of incoming
stream_of-remaining [] incoming = refl
stream_of-remaining (b ∷ bs) incoming = refl

-- Enough bytes on the stream: the loop returns, with as many of them as it misses.
pub recv_from-received :
    (turns missing : ℕ) (chunks : List ℕ) (incoming : List Incoming)
    → missing ≤ turns
    → missing ≤ length (stream_of incoming)
    → (rest : List Incoming) × (recv_from turns missing chunks incoming
        ≡ received (chunks ++ take missing (stream_of incoming)) rest)
      × (stream_of rest ≡ drop missing (stream_of incoming))
unfolding recv_from
recv_from-received turns zero chunks incoming enough there =
    (incoming, ap (λ bs. received bs incoming) (sym (append-nil chunks)), refl)
recv_from-received zero (suc missing) chunks incoming enough there = absurd (omega arith)
recv_from-received (suc turns) (suc missing) chunks [] enough there = absurd (omega arith)
recv_from-received (suc turns) (suc missing) chunks (raises ∷ incoming) enough there =
    absurd (omega arith)
recv_from-received (suc turns) (suc missing) chunks (arrived [] ∷ incoming) enough there =
    absurd (omega arith)
recv_from-received (suc turns) (suc missing) chunks (arrived (b ∷ bs) ∷ incoming) enough there =
    let left = remaining (drop (suc missing) (b ∷ bs)) incoming in
    let behind = stream_of incoming in
    let stream = stream_of-remaining (drop (suc missing) (b ∷ bs)) incoming in
    let less : suc missing - suc (length bs) ≡ missing - length bs = omega arith in
    let taken : take (suc missing) (b ∷ bs) ++ take (missing - length bs) (stream_of left)
        ≡ take (suc missing) (b ∷ bs ++ behind) =
      rw (stream, ← less) (take-take (suc missing) (b ∷ bs) behind) in
    let dropped : drop (missing - length bs) (stream_of left)
        ≡ drop (suc missing) (b ∷ bs ++ behind) =
      rw (stream, ← less) (drop-drop (suc missing) (b ∷ bs) behind) in
    let (rest, gives, leaves) =
      recv_from-received turns (missing - length bs) (chunks ++ take (suc missing) (b ∷ bs)) left
        (omega arith)
        (rw stream (
          omega (
            arith,
            length-append (drop (suc missing) (b ∷ bs)) behind,
            length-drop (suc missing) (b ∷ bs),
            length-append (b ∷ bs) behind,
          ))) in
    (
      rest,
      gives ∙ ap (λ bs. received bs rest) (append_assoc chunks _ _ ∙ ap (λ t. chunks ++ t) taken),
      leaves ∙ dropped,
    )

-- A stream that starts with the bytes `xs`: they are received, and the rest stays.
pub recv_exact-append :
    (xs ys : List ℕ) (incoming : List Incoming)
    → stream_of incoming ≡ xs ++ ys
    → (left : List Incoming) × (recv_exact (length xs) incoming ≡ received xs left)
      × (stream_of left ≡ ys)
recv_exact-append xs ys incoming stream =
    let (left, gives, leaves) =
      recv_from-received (length xs) (length xs) [] incoming (omega arith)
        (rw stream (omega (arith, length-append xs ys))) in
    (
      left,
      gives ∙ ap (λ bs. received bs left) (rw stream (take-append_of {n = length xs} xs ys refl)),
      leaves ∙ rw stream (drop-append_of {n = length xs} xs ys refl),
    )

recv_from-raises :
    (turns missing : ℕ) (chunks : List ℕ) (incoming : List Incoming)
    → 0 < missing
    → 0 < turns
    → recv_from turns missing chunks (raises ∷ incoming) ≡ unavailable incoming
unfolding recv_from
recv_from-raises turns zero chunks incoming h k = absurd (omega arith)
recv_from-raises zero (suc missing) chunks incoming h k = absurd (omega arith)
recv_from-raises (suc turns) (suc missing) chunks incoming h k = refl

-- Fewer bytes than are missing, and then a call that raises.
recv_from-interrupted :
    (turns missing : ℕ) (chunks bs : List ℕ) (incoming : List Incoming)
    → 0 < length bs
    → length bs < missing
    → missing ≤ turns
    → recv_from turns missing chunks (arrived bs ∷ raises ∷ incoming) ≡ unavailable incoming
unfolding recv_from
recv_from-interrupted turns zero chunks bs incoming positive short enough = absurd (omega arith)
recv_from-interrupted zero (suc missing) chunks bs incoming positive short enough =
    absurd (omega arith)
recv_from-interrupted turns (suc missing) chunks [] incoming positive short enough =
    absurd (omega arith)
recv_from-interrupted (suc turns) (suc missing) chunks (b ∷ bs) incoming positive short enough =
    ap
      (λ left.
        recv_from turns (missing - length bs) (chunks ++ take (suc missing) (b ∷ bs))
          (remaining left (raises ∷ incoming)))
      (drop-all missing bs (omega arith))
    ∙ recv_from-raises turns (missing - length bs) (chunks ++ take (suc missing) (b ∷ bs)) incoming
        (omega arith) (omega arith)

module _ {F : Type 0} (decoders : Decoders F) where
  delivers :
      (header body : List ℕ) (message : Value F) (incoming after left : List Incoming)
      → recv_exact frame_header_bytes incoming ≡ received header after
      → decode_frame_header header ≡ (frame_kind_acknowledgement, length body)
      → recv_exact (length body) after ≡ received body left
      → length body ≤ max_frame_bytes
      → decode_acknowledgement decoders body ≡ value message
      → read_one_frame decoders true incoming ≡ acknowledged message left
  unfolding read_one_frame
  delivers header body message incoming after left first parses second fits decodes =
      let small : ltb max_frame_bytes (length body) ≡ false = ground arith in
      ap (after_header decoders) first
      ∙ ap (λ p. after_parsed decoders p after) parses
      ∙ simp (small, second, decodes) refl

  -- An acknowledgement that the Agent framed reaches the callback, however its bytes and those behind
  -- it are cut into chunks, and what stands behind it on the stream is left there.
  pub read_one_frame-encode_frame :
      (body wire rest : List ℕ) (message : Value F) (incoming : List Incoming)
      → encode_frame body frame_kind_acknowledgement ≡ some wire
      → length body ≤ max_frame_bytes
      → decode_acknowledgement decoders body ≡ value message
      → stream_of incoming ≡ wire ++ rest
      → (left : List Incoming) × (read_one_frame decoders true incoming ≡ acknowledged message left)
        × (stream_of left ≡ rest)
  read_one_frame-encode_frame body wire rest message incoming framed fits decodes stream =
      let (hk, hs, e) = encode_frame-eq-some body frame_kind_acknowledgement {wire = wire} framed in
      let header = big_endian 1 frame_kind_acknowledgement ++ big_endian 4 (length body) in
      let parts : stream_of incoming ≡ header ++ (body ++ rest) =
        stream ∙ rw e (append_assoc header body rest) in
      let (after, got_header, behind) = recv_exact-append header (body ++ rest) incoming parts in
      let five = header_size frame_kind_acknowledgement (length body) in
      let got = subst (λ n. recv_exact n incoming ≡ received header after) five got_header in
      let (left, got_body, last) = recv_exact-append body rest after behind in
      let parses = decode_frame_header-big_endian frame_kind_acknowledgement (length body) hk hs in
      (
        left,
        delivers header body message incoming after left got parses got_body fits decodes,
        last,
      )

  -- A header that a timeout interrupts: the connection is kept, but the bytes that had arrived are
  -- gone, and the next read starts behind them.
  pub read_one_frame-interrupted :
      (bs : List ℕ) (incoming : List Incoming)
      → 0 < length bs
      → length bs < frame_header_bytes
      → read_one_frame decoders true (arrived bs ∷ raises ∷ incoming) ≡ no_connection incoming
  unfolding read_one_frame
  read_one_frame-interrupted bs incoming positive short =
      ap (after_header decoders)
        (recv_from-interrupted 5 5 [] bs incoming positive short (omega arith))
