-- ===== src/Ingest/Connection/Stream.antt =====
-- The messages that the Bridge writes to a connection arrive in their order.
use edge_weapon_detection_pl.Base.{
  ℕ, zero, suc, ◌+◌, ◌<◌, ◌≤◌, ◌≡◌, ◌≢◌, refl, ap, arith, ◌∙◌, String, true, false, Option, none,
  some, List, [], ◌∷◌, ◌++◌, length, ltb,
}
use edge_weapon_detection_pl.Float.{Float}
use edge_weapon_detection_pl.Json.{Payload}
use edge_weapon_detection_pl.Protocol.{
  read_frame, ReadResult, frame, frame_kind_detection, max_frame_bytes, max_snapshot_frame_bytes,
  encode_frame, encode_snapshot_message, decode_snapshot_message,
}
use edge_weapon_detection_pl.Protocol.Frames.{
  read_frame-encode_frame, read_frame_bounds, decode-encode_snapshot_message,
}
use edge_weapon_detection_pl.Ingest.Connection.{
  Decoders, Parsed, message, QueueItem, detection, snapshot, Closing, end_of_stream, still_open,
  Turn, enqueued, closed, parse_detection_body, handle_frame, turn, follow, handle_connection,
  enqueue_snapshot, enqueue_parsed, refused, broken,
}

module _ (float : Float) (decoders : Decoders float.F) where
  open float use {F}

  -- A message on the wire with the item that it stands for: a detection whose body the handler
  -- accepts, or a snapshot.
  pub data IsSent : QueueItem F → List ℕ → Type 0 where
    sent_detection :
        (payload : Payload F) (body wire : List ℕ)
        → encode_frame body frame_kind_detection ≡ some wire
        → 0 < length body
        → length body ≤ max_frame_bytes
        → parse_detection_body float decoders body ≡ message payload
        → IsSent (detection payload) wire
    sent_snapshot :
        (event_id : String) (id_bytes image wire : List ℕ)
        → decoders.decode_utf8 id_bytes ≡ some event_id
        → encode_snapshot_message id_bytes image ≡ some wire
        → 2 + length id_bytes + length image ≤ max_snapshot_frame_bytes
        → IsSent (snapshot event_id image) wire

  turn-sent :
      (item : QueueItem F) (wire rest : List ℕ)
      → IsSent item wire
      → turn float decoders (wire ++ rest) ≡ enqueued item rest
  unfolding turn
  turn-sent item wire rest (sent_detection payload body w written positive fits parsed) =
      let arrives =
        read_frame-encode_frame body rest frame_kind_detection max_snapshot_frame_bytes true
          {wire = w} written positive (omega arith) in
      let small : ltb max_frame_bytes (length body) ≡ false = ground arith in
      ap (handle_frame float decoders) arrives ∙ rw (small, parsed) refl
  turn-sent item wire rest (sent_snapshot event_id id_bytes image w decodes written fits) =
      let (body, arrives, splits) =
        decode-encode_snapshot_message decoders.decode_utf8 event_id id_bytes image rest
          max_snapshot_frame_bytes {wire = w} decodes written fits in
      ap (handle_frame float decoders) arrives ∙ ap (λ r. enqueue_snapshot float r rest) splits

  -- The bytes of the messages, and their items.
  pub data AreSent : List (QueueItem F) → List ℕ → Type 0 where
    no_more : AreSent [] []
    then_sent :
        (item : QueueItem F) (wire : List ℕ) (items : List (QueueItem F)) (wires : List ℕ)
        → IsSent item wire
        → AreSent items wires
        → AreSent (item ∷ items) (wire ++ wires)

  end_turn : turn float decoders [] ≡ closed end_of_stream
  unfolding turn read_frame
  end_turn = refl

  -- With more turns than messages, a connection on which these messages are written and that is then
  -- closed enqueues their items in this order, and ends in order.
  pub handle_connection-sent :
      (items : List (QueueItem F)) (stream : List ℕ) (turns : ℕ)
      → AreSent items stream
      → length items < turns
      → handle_connection float decoders turns stream ≡ (items, end_of_stream)
  unfolding handle_connection
  handle_connection-sent items stream zero sent h = absurd (omega arith)
  handle_connection-sent items stream (suc turns) no_more h =
      ap (follow float (handle_connection float decoders turns)) end_turn
  handle_connection-sent items stream (suc turns) (then_sent item wire items' wires sent later) h =
      ap (follow float (handle_connection float decoders turns)) (turn-sent item wire wires sent)
      ∙ ap (λ (r : List (QueueItem F) × Closing). (item ∷ r.0, r.1))
          (handle_connection-sent items' wires turns later (omega arith))

  snapshot_rest :
      (o : Option (String × List ℕ)) (later : List ℕ) (item : QueueItem F) (rest : List ℕ)
      → enqueue_snapshot float o later ≡ enqueued item rest
      → later ≡ rest
  snapshot_rest none later item rest h = cc
  snapshot_rest (some (i, bytes)) later item rest h = cc

  detection_rest :
      (p : Parsed F) (later : List ℕ) (item : QueueItem F) (rest : List ℕ)
      → enqueue_parsed float p later ≡ enqueued item rest
      → later ≡ rest
  detection_rest (message payload) later item rest h = cc
  detection_rest (refused reason) later item rest h = cc
  detection_rest broken later item rest h = cc

  frame_rest :
      (kind : ℕ) (body later : List ℕ) (item : QueueItem F) (rest : List ℕ)
      → handle_frame float decoders (frame kind body later) ≡ enqueued item rest
      → later ≡ rest
  frame_rest kind body later item rest h = ground (
    arith,
    snapshot_rest (decode_snapshot_message decoders.decode_utf8 body) later item rest,
    detection_rest (parse_detection_body float decoders body) later item rest,
  )

  read-shrinks :
      (stream : List ℕ) (result : ReadResult) (item : QueueItem F) (rest : List ℕ)
      → read_frame stream max_snapshot_frame_bytes true ≡ result
      → handle_frame float decoders result ≡ enqueued item rest
      → length rest < length stream
  read-shrinks stream ReadResult.end item rest e h = cc
  read-shrinks stream ReadResult.disconnected item rest e h = cc
  read-shrinks stream (ReadResult.rejected reason) item rest e h = cc
  read-shrinks stream (frame kind body later) item rest e h =
      let same = frame_rest kind body later item rest h in
      let bounds =
        read_frame_bounds stream max_snapshot_frame_bytes true {kind = kind} {body = body}
          {rest = later} e in
      rw (← same) (omega (arith, bounds.2))

  snapshot_ends :
      (o : Option (String × List ℕ)) (later : List ℕ)
      → enqueue_snapshot float o later ≢ closed still_open
  snapshot_ends none later h = cc
  snapshot_ends (some (i, bytes)) later h = cc

  detection_ends :
      (p : Parsed F) (later : List ℕ) → enqueue_parsed float p later ≢ closed still_open
  detection_ends (message payload) later h = cc
  detection_ends (refused reason) later h = cc
  detection_ends broken later h = cc

  frame_ends : (result : ReadResult) → handle_frame float decoders result ≢ closed still_open
  frame_ends ReadResult.end h = cc
  frame_ends ReadResult.disconnected h = cc
  frame_ends (ReadResult.rejected reason) h = cc
  frame_ends (frame kind body later) h = ground (
    arith,
    snapshot_ends (decode_snapshot_message decoders.decode_utf8 body) later,
    detection_ends (parse_detection_body float decoders body) later,
  )

  follow-closes :
      (turns : ℕ) (t : Turn F)
      → t ≢ closed still_open
      → ((item : QueueItem F) (rest : List ℕ)
          → t ≡ enqueued item rest
          → (handle_connection float decoders turns rest).1 ≢ still_open)
      → (follow float (handle_connection float decoders turns) t).1 ≢ still_open
  follow-closes turns (enqueued item rest) ends h = h item rest refl
  follow-closes turns (closed reason) ends h = λ e. ends (ap closed e)

  -- Every connection whose client closes it, or breaks the protocol, is closed: with more turns than
  -- bytes the loop has ended.
  pub handle_connection-closes :
      (turns : ℕ) (stream : List ℕ)
      → length stream < turns
      → (handle_connection float decoders turns stream).1 ≢ still_open
  unfolding handle_connection turn
  handle_connection-closes zero stream h = absurd (omega arith)
  handle_connection-closes (suc turns) stream h =
      follow-closes turns (turn float decoders stream)
        (frame_ends (read_frame stream max_snapshot_frame_bytes true))
        (λ item rest e.
          let shorter =
            read-shrinks stream (read_frame stream max_snapshot_frame_bytes true) item rest refl
              e in
          handle_connection-closes turns rest (omega arith))
