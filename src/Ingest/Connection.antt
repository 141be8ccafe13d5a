-- ===== src/Ingest/Connection.antt =====
-- A connection and the queue behind it: `_handle_connection`, `_parse_detection_body` and `_enqueue`
-- of detection/ingest_handler.py.
pub mod Stream
pub mod Queue
use edge_weapon_detection_pl.Base.{
  ℕ, zero, suc, ◌+◌, String, Bool, true, false, ◌||◌, Option, none, some, List, [], ◌∷◌, ◌++◌,
  length, ltb, nat_beq, if◌then◌else◌,
}
use edge_weapon_detection_pl.Float.{Float}
use edge_weapon_detection_pl.Json.{Value, Payload, dict_of}
use edge_weapon_detection_pl.Protocol.{
  FrameRejection, ReadResult, read_frame, decode_snapshot_message, frame_kind_snapshot,
  frame_kind_detection, max_frame_bytes, max_snapshot_frame_bytes, invalid_utf8, invalid_json,
  invalid_json_shape, unsupported_schema_version, malformed_snapshot_frame, unexpected_frame_kind,
  oversized_frame,
}
use edge_weapon_detection_pl.Ingest.{equals_int, schema_version_of}

-- What `json.loads` gives: a value, its JSONDecodeError, or an exception of another kind.
pub data Loaded (F : Type 0) : Type 0 where
  value : Value F → Loaded F
  not_json : Loaded F
  crashed : Loaded F

-- `bytes.decode("utf-8")` and `json.loads`.
pub record Decoders (F : Type 0) : Type 0 where
  pub decode_utf8 : List ℕ → Option String
  pub loads : String → Loaded F

pub data Parsed (F : Type 0) : Type 0 where
  message : Payload F → Parsed F
  refused : FrameRejection → Parsed F
  broken : Parsed F

pub data QueueItem (F : Type 0) : Type 0 where
  detection : Payload F → QueueItem F
  snapshot : String → List ℕ → QueueItem F

-- Why a connection is closed. `still_open` is a loop whose turns were used up, which never happens.
pub data Closing : Type 0 where
  end_of_stream lost_client crash still_open : Closing
  protocol_violation : FrameRejection → Closing

-- One turn of the connection's loop.
pub data Turn (F : Type 0) : Type 0 where
  enqueued : QueueItem F → List ℕ → Turn F
  closed : Closing → Turn F

module _ (float : Float) where
  open float use {F}

  -- `schema_version in SUPPORTED_SCHEMA_VERSIONS`; `none` is the TypeError of a value that cannot
  -- be hashed.
  abbrev pub is_supported : Option (Value F) → Option Bool
  is_supported (some (Value.arr items)) = none
  is_supported (some (Value.obj fields)) = none
  is_supported v = some (equals_int float v 1 || equals_int float v 2)

  abbrev pub check_version : Payload F → Option Bool → Parsed F
  check_version payload none = broken
  check_version payload (some false) = refused unsupported_schema_version
  check_version payload (some true) = message payload

  abbrev pub parse_loaded : Loaded F → Parsed F
  parse_loaded not_json = refused invalid_json
  parse_loaded crashed = broken
  parse_loaded (value (Value.obj fields)) =
      check_version (dict_of fields) (is_supported (schema_version_of (dict_of fields)))
  parse_loaded (value v) = refused invalid_json_shape

  unfoldable pub parse_detection_body : Decoders F → List ℕ → Parsed F
  parse_detection_body decoders body = elim (decoders.decode_utf8 body) [
    | none ↦ refused invalid_utf8
    | some text ↦ parse_loaded (decoders.loads text)
  ]

  abbrev pub enqueue_parsed : Parsed F → List ℕ → Turn F
  enqueue_parsed (message payload) rest = enqueued (detection payload) rest
  enqueue_parsed (refused reason) rest = closed (protocol_violation reason)
  enqueue_parsed broken rest = closed crash

  abbrev pub enqueue_snapshot : Option (String × List ℕ) → List ℕ → Turn F
  enqueue_snapshot none rest = closed (protocol_violation malformed_snapshot_frame)
  enqueue_snapshot (some (event_id, bytes)) rest = enqueued (snapshot event_id bytes) rest

  abbrev pub handle_frame : Decoders F → ReadResult → Turn F
  handle_frame decoders ReadResult.end = closed end_of_stream
  handle_frame decoders ReadResult.disconnected = closed lost_client
  handle_frame decoders (ReadResult.rejected reason) = closed (protocol_violation reason)
  handle_frame decoders (ReadResult.frame kind body rest) =
      if nat_beq kind frame_kind_snapshot
      then enqueue_snapshot (decode_snapshot_message decoders.decode_utf8 body) rest
      else if nat_beq kind frame_kind_detection
      then (if ltb max_frame_bytes (length body)
          then closed (protocol_violation oversized_frame)
          else enqueue_parsed (parse_detection_body decoders body) rest)
      else closed (protocol_violation unexpected_frame_kind)

  unfoldable pub turn : Decoders F → List ℕ → Turn F
  turn decoders stream = handle_frame decoders (read_frame stream max_snapshot_frame_bytes true)

  abbrev pub follow :
      (List ℕ → List (QueueItem F) × Closing) → Turn F → List (QueueItem F) × Closing
  follow continue (enqueued item rest) = (item ∷ (continue rest).0, (continue rest).1)
  follow continue (closed reason) = ([], reason)

  -- The items that a connection enqueues in at most `turns` turns, and why it is closed.
  unfoldable pub handle_connection : Decoders F → ℕ → List ℕ → List (QueueItem F) × Closing
  unfolding turn
  handle_connection decoders zero stream = ([], still_open)
  handle_connection decoders (suc turns) stream =
      follow (λ rest. handle_connection decoders turns rest) (turn decoders stream)

-- The queue between the connections and the consumer. `queue` is `none` while the handler is
-- stopped.
pub record QueueState (F : Type 0) : Type 0 where
  pub queue : Option (List (QueueItem F))
  pub dropped_count : ℕ

abbrev pub put_nowait :
    {F : Type 0} → ℕ → QueueItem F → QueueState F → List (QueueItem F) → QueueState F
put_nowait capacity item s items =
    if ltb (length items) capacity
    then record s { queue = some (items ++ item ∷ []) }
    else record s { dropped_count = s.dropped_count + 1 }

abbrev pub enqueue_in :
    {F : Type 0} → ℕ → QueueItem F → QueueState F → Option (List (QueueItem F)) → QueueState F
enqueue_in capacity item s none = s
enqueue_in capacity item s (some items) = put_nowait capacity item s items

unfoldable pub enqueue : {F : Type 0} → ℕ → QueueItem F → QueueState F → QueueState F
enqueue capacity item s = enqueue_in capacity item s s.queue
