-- ===== src/Tests/Bridge.antt =====
-- The Bridge at concrete inputs.
use edge_weapon_detection_pl.Base.{
  ℕ, zero, suc, ◌≤◌, ◌+◌, ◌≡◌, refl, arith, String, Bool, true, false, some, none, List, [], ◌∷◌,
  length,
}
use edge_weapon_detection_pl.Base.Eq.{string_eq}
use edge_weapon_detection_pl.Base.Int.{pos, int_eq}
use edge_weapon_detection_pl.Base.Dict.{get}
use edge_weapon_detection_pl.Base.Rows.{count_rows}
use edge_weapon_detection_pl.Json.{Value, Fields, Payload}
use edge_weapon_detection_pl.Protocol.{encode_frame}
use edge_weapon_detection_pl.Ingest.Connection.{Decoders, value}
use edge_weapon_detection_pl.Validation.{read_facts, normalize_v2_payload}
use edge_weapon_detection_pl.Validation.Outcome.{pass}
use edge_weapon_detection_pl.Bridge.Rendezvous.{
  frame_eq, SnapshotRendezvous, Candidate, none_retained, start_rendezvous, submit_jpeg, submit_ack,
}
use edge_weapon_detection_pl.Bridge.Rendezvous.Arrivals.{
  Arrival, detection, jpeg, acknowledgement, arrive_all, IsBounded,
}
use edge_weapon_detection_pl.Bridge.Rendezvous.Arrivals.Budget.{
  arrive_all-IsBounded, sends, registrations,
}
use edge_weapon_detection_pl.Bridge.Rendezvous.Orders.{Awaits, acceptance, submit_jpeg-submit_ack}
use edge_weapon_detection_pl.Bridge.Wire.{RawDetection, to_wire_message}
use edge_weapon_detection_pl.Bridge.Wire.Agreement.{facts_of, read_facts-to_wire_message}
use edge_weapon_detection_pl.Bridge.Transport.{
  TransportWorker, Attempt, Encoders, start_lane, create, put_item, close_socket, sender_step,
  looping, died, a_detection, answered,
}
use edge_weapon_detection_pl.Bridge.Transport.Accounts.{
  Steps, stay, step, by_probe, by_sender, by_close, offered, messages_accounted,
}
use edge_weapon_detection_pl.Bridge.Reader.{
  Incoming, arrived, decode_acknowledgement, read_one_frame, acknowledged,
}
use edge_weapon_detection_pl.Bridge.Reader.Exact.{stream_of, read_one_frame-encode_frame}
use edge_weapon_detection_pl.Tests.Floats.{thousandths}

abbrev two_calls : List Arrival
two_calls =
    detection (pos 0) "m1" (pos 7) 10
    ∷ jpeg (pos 0) (pos 7) (255 ∷ []) 11
    ∷ acknowledgement "m1" (acceptance "e1") 12
    ∷ []

arrive_all-IsBounded_example :
    IsBounded (arrive_all (none_retained 4 100) two_calls)
    × (sends (none_retained 4 100) two_calls
          + length (arrive_all (none_retained 4 100) two_calls).by_message
        ≤ registrations two_calls)
unfolding start_rendezvous
arrive_all-IsBounded_example = arrive_all-IsBounded 4 100 (none_retained 4 100) two_calls refl

abbrev waiting : Candidate
waiting = record {
  source_id = pos 0;
  frame_number = pos 7;
  message_id = "m1";
  expires_at = 110;
  valve_matched = true;
  jpeg_bytes = none;
  ack_outcome = none;
  event_id = none;
  snapshot_required = false;
  completed = false;
}

abbrev one_waits : SnapshotRendezvous
one_waits = record {
  max_retained = 4;
  ttl_seconds = 100;
  by_message = ("m1", waiting) ∷ [];
  by_frame = ((pos 0, pos 7), "m1") ∷ [];
}

one_waits-Awaits : Awaits one_waits "m1" waiting
unfolding get
one_waits-Awaits = record {
  by_frame = refl;
  by_message = refl;
  own_key = refl;
  is_open = refl;
  unanswered = refl;
  without_jpeg = refl;
}

submit_jpeg-submit_ack_example :
    let with_jpeg_first = submit_jpeg one_waits (pos 0) (pos 7) (255 ∷ []) 20 in
    let with_ack_first = submit_ack one_waits "m1" (acceptance "e1") 20 in
    (with_jpeg_first.1 ≡ none)
    × (with_ack_first.1 ≡ none)
    × (submit_ack with_jpeg_first.0 "m1" (acceptance "e1") 30
        ≡ submit_jpeg with_ack_first.0 (pos 0) (pos 7) (255 ∷ []) 30)
    × ((submit_ack with_jpeg_first.0 "m1" (acceptance "e1") 30).1 ≡ some ("e1", 255 ∷ []))
submit_jpeg-submit_ack_example =
    submit_jpeg-submit_ack one_waits "m1" waiting "e1" (255 ∷ []) 40 20 30 one_waits-Awaits
      (omega arith, tt) (omega arith) (omega arith)

abbrev gun : RawDetection ℕ
gun = record {
  schema_version = pos 2;
  message_id = "m1";
  class_id = pos 0;
  confidence = 910;
  source_id = pos 0;
  frame_number = pos 7;
  frame_width = pos 1920;
  frame_height = pos 1080;
  bbox_left = 1000;
  bbox_top = 2000;
  bbox_width = 30000;
  bbox_height = 40000;
}

read_facts-to_wire_message_example :
    read_facts thousandths (normalize_v2_payload (to_wire_message gun))
    ≡ pass (facts_of thousandths gun)
read_facts-to_wire_message_example =
    read_facts-to_wire_message thousandths gun
      (record { confidence = refl; left = refl; top = refl; width = refl; height = refl })

abbrev encoders : Encoders ℕ
encoders = record { dumps = λ payload. 123 ∷ 125 ∷ []; encode_utf8 = λ text. 49 ∷ [] }

abbrev idle_worker : TransportWorker ℕ
idle_worker = record {
  detections = start_lane 2;
  snapshots = start_lane 2;
  has_socket = false;
  connected = false;
  sender = looping;
}

abbrev offered_once : TransportWorker ℕ
offered_once = record idle_worker {
  detections = record (start_lane 2) { items = to_wire_message gun ∷ [] };
}

-- the reader closes the socket that the sender has just tested: the sender ends with the message
abbrev ended : TransportWorker ℕ
ended = record idle_worker { sender = died (a_detection (to_wire_message gun)) }

abbrev reachable : Attempt
reachable = record { dialled = answered; sends = true; closes = true }

created : create 2 2 ≡ some idle_worker
unfolding create
created = refl

abbrev after_sender : ℕ → TransportWorker ℕ → TransportWorker ℕ
after_sender zero w = w
after_sender (suc n) w = after_sender n (sender_step encoders reachable w)

by_senders :
    (n : ℕ) (u w : TransportWorker ℕ)
    → Steps encoders [] [] (after_sender n u) w
    → Steps encoders [] [] u w
by_senders zero u w run = run
by_senders (suc n) u w run =
    step [] [] [] [] u (sender_step encoders reachable u) w (by_sender reachable u)
      (by_senders n (sender_step encoders reachable u) w run)

one_message : Steps encoders (to_wire_message gun ∷ []) [] idle_worker ended
unfolding put_item sender_step
one_message =
    step (to_wire_message gun ∷ []) [] [] [] idle_worker offered_once ended
      (by_probe (to_wire_message gun) idle_worker)
      (by_senders 3 offered_once ended (
        step [] [] [] [] (after_sender 3 offered_once) (close_socket (after_sender 3 offered_once))
          ended (by_close (after_sender 3 offered_once))
          (by_senders 1 (close_socket (after_sender 3 offered_once)) ended (stay ended))))

messages_accounted_example :
    ((test : Payload ℕ → Bool)
      → offered test ended.detections + count_rows test (to_wire_message gun ∷ [])
        ≡ count_rows test (to_wire_message gun ∷ []))
    × ((test : String × List ℕ → Bool)
        → offered test ended.snapshots + count_rows test [] ≡ count_rows test [])
    × (1 + 0 ≤ 1)
    × (length ended.detections.items ≤ 2)
    × (length ended.snapshots.items ≤ 2)
    × (ended.detections.dropped_enqueue_count ≡ length ended.detections.refused)
    × (ended.snapshots.dropped_enqueue_count ≤ length ended.snapshots.refused)
    × (ended.detections.dropped_send_count ≡ length ended.detections.lost)
    × (ended.snapshots.dropped_send_count ≡ length ended.snapshots.lost)
messages_accounted_example = messages_accounted encoders 2 2 created one_message

abbrev decoders : Decoders ℕ
decoders = record { decode_utf8 = λ bytes. some "{}"; loads = λ text. value (Value.obj Fields.end) }

-- A frame of two bytes, cut within its header and within its body, and a byte behind it.
abbrev chunks : List Incoming
chunks = arrived (3 ∷ 0 ∷ []) ∷ arrived (0 ∷ 0 ∷ 2 ∷ 123 ∷ []) ∷ arrived (125 ∷ 3 ∷ []) ∷ []

read_one_frame-encode_frame_example :
    (left : List Incoming) × (read_one_frame decoders true chunks
      ≡ acknowledged (Value.obj Fields.end) left)
    × (stream_of left ≡ 3 ∷ [])
unfolding encode_frame decode_acknowledgement
read_one_frame-encode_frame_example =
    read_one_frame-encode_frame decoders (123 ∷ 125 ∷ []) (3 ∷ 0 ∷ 0 ∷ 0 ∷ 2 ∷ 123 ∷ 125 ∷ [])
      (3 ∷ []) (Value.obj Fields.end) chunks refl (omega arith) refl refl
