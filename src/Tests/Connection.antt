-- ===== src/Tests/Connection.antt =====
-- A connection and the queue at concrete inputs.
use edge_weapon_detection_pl.Base.{
  ℕ, ◌≡◌, ◌≢◌, refl, arith, some, none, List, [], ◌∷◌, ◌++◌, nat_beq, if◌then◌else◌,
}
use edge_weapon_detection_pl.Base.Int.{pos}
use edge_weapon_detection_pl.Base.Dict.{get}
use edge_weapon_detection_pl.Json.{Value, Fields, dict_of}
use edge_weapon_detection_pl.Protocol.{encode_frame, encode_snapshot_message, from_bytes}
use edge_weapon_detection_pl.Ingest.{equals_int}
use edge_weapon_detection_pl.Ingest.Connection.{
  Decoders, value, QueueItem, detection, snapshot, end_of_stream, still_open, parse_detection_body,
  handle_connection,
}
use edge_weapon_detection_pl.Ingest.Connection.Stream.{
  sent_detection, sent_snapshot, AreSent, no_more, then_sent, handle_connection-sent,
  handle_connection-closes,
}
use edge_weapon_detection_pl.Ingest.Connection.Queue.{
  Event, arrival, consumption, Flow, Accounts, advance_all, advance_all-Accounts,
}
use edge_weapon_detection_pl.Tests.Floats.{thousandths}

abbrev fields : Fields ℕ
fields = Fields.field "schema_version" (Value.int (pos 1)) Fields.end

-- Decoders that know two texts.
abbrev decoders : Decoders ℕ
decoders = record {
  decode_utf8 = λ bs.
      if nat_beq (from_bytes bs) 97
      then some "a"
      else if nat_beq (from_bytes bs) 98
      then some "b"
      else none;
  loads = λ s. value (Value.obj fields);
}

abbrev detection_wire : List ℕ
detection_wire = 1 ∷ 0 ∷ 0 ∷ 0 ∷ 1 ∷ 97 ∷ []

abbrev snapshot_wire : List ℕ
snapshot_wire = 2 ∷ 0 ∷ 0 ∷ 0 ∷ 5 ∷ 0 ∷ 1 ∷ 98 ∷ 255 ∷ 216 ∷ []

abbrev items : List (QueueItem ℕ)
items = detection (dict_of fields) ∷ snapshot "b" (255 ∷ 216 ∷ []) ∷ []

abbrev stream : List ℕ
stream = detection_wire ++ (snapshot_wire ++ [])

items-AreSent : AreSent thousandths decoders items stream
unfolding encode_frame encode_snapshot_message parse_detection_body equals_int get from_bytes
items-AreSent =
    then_sent _ detection_wire _ _
      (sent_detection (dict_of fields) (97 ∷ []) detection_wire refl (omega arith) (omega arith)
        refl)
      (then_sent _ snapshot_wire _ _
        (sent_snapshot "b" (98 ∷ []) (255 ∷ 216 ∷ []) snapshot_wire refl refl (omega arith))
        no_more)

handle_connection-sent_example :
    handle_connection thousandths decoders 20 stream ≡ (items, end_of_stream)
handle_connection-sent_example =
    handle_connection-sent thousandths decoders items stream 20 items-AreSent (omega arith)

handle_connection-closes_example :
    (handle_connection thousandths decoders 20 (1 ∷ 0 ∷ 0 ∷ 0 ∷ 0 ∷ [])).1 ≢ still_open
handle_connection-closes_example =
    handle_connection-closes thousandths decoders 20 (1 ∷ 0 ∷ 0 ∷ 0 ∷ 0 ∷ []) (omega arith)

abbrev empty_flow : Flow ℕ
empty_flow = record { state = record { queue = some []; dropped_count = 0 }; taken = [] }

abbrev frame_item : QueueItem ℕ
frame_item = snapshot "b" []

-- Three arrivals at a queue for one item, with one turn of the consumer between them.
abbrev events : List (Event ℕ)
events = arrival frame_item ∷ arrival frame_item ∷ consumption ∷ arrival frame_item ∷ []

empty-Accounts : Accounts 1 0 empty_flow
empty-Accounts = record { waiting = []; is_running = refl; bounded = omega arith; balance = refl }

advance_all-Accounts_example : Accounts 1 3 (advance_all 1 empty_flow events)
advance_all-Accounts_example = advance_all-Accounts 1 0 empty_flow events empty-Accounts
