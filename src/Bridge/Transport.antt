-- ===== src/Bridge/Transport.antt =====
-- The queues and the sender of the Bridge: `TransportWorker` of deployment/jetson/deepstream/bridge/
-- app/deepstream_bridge/transport.py, and `encode_message` of protocol.py, whose framing functions
-- repeat those of the Agent. One run of the threads is modelled, from `start` on. A step of the sender
-- is what it does up to the next point where another thread's change can alter its course: taking a
-- message, the test of `_sock` with `_connect`, the assert with `sendall`, the handling of an
-- OSError. What the operating system answers is given with the step.
pub mod Accounts
use edge_weapon_detection_pl.Base.{
  ℕ, ◌+◌, ◌≡◌, String, Bool, true, false, Option, none, some, List, [], ◌∷◌, ◌++◌, length, ltb,
  if◌then◌else◌, ◌&&◌,
}
use edge_weapon_detection_pl.Json.{Payload}
use edge_weapon_detection_pl.Protocol.{encode_frame, encode_snapshot_message, frame_kind_detection}

-- A bounded queue with its counters. `refused` are the items that found the queue full, `lost` those
-- that the sender dropped, and `delivered` those whose `sendall` returned, in their order; the code
-- keeps none of these lists.
pub record Lane (A : Type 0) : Type 0 where
  pub capacity : ℕ
  pub items : List A
  pub refused : List A
  pub lost : List A
  pub dropped_enqueue_count : ℕ
  pub dropped_send_count : ℕ
  pub delivered : List A

-- A message that the sender took from its queue
pub data Held (F : Type 0) : Type 0 where
  a_detection : Payload F → Held F
  a_jpeg : String → List ℕ → Held F

-- Where the sender stands: at the head of its loop; at the wait for a detection, no snapshot being
-- queued; before the test of `_sock`; past it; where `sendall` raised an OSError; and ended by an
-- exception that nothing catches, in the middle of a message.
pub data Phase (F : Type 0) : Type 0 where
  looping waiting : Phase F
  taken checked failing died : Held F → Phase F

-- `has_socket` is `self._sock is not None`.
pub record TransportWorker (F : Type 0) : Type 0 where
  pub detections : Lane (Payload F)
  pub snapshots : Lane (String × List ℕ)
  pub has_socket : Bool
  pub connected : Bool
  pub sender : Phase F

abbrev pub start_lane : {A : Type 0} → ℕ → Lane A
start_lane capacity = record {
  capacity = capacity;
  items = [];
  refused = [];
  lost = [];
  dropped_enqueue_count = 0;
  dropped_send_count = 0;
  delivered = [];
}

-- `none` is the ValueError for a capacity that is not positive.
unfoldable pub create : {F : Type 0} → ℕ → ℕ → Option (TransportWorker F)
create queue_capacity snapshot_queue_capacity =
    if ltb 0 queue_capacity && ltb 0 snapshot_queue_capacity
    then some (record {
      detections = start_lane queue_capacity;
      snapshots = start_lane snapshot_queue_capacity;
      has_socket = false;
      connected = false;
      sender = looping;
    })
    else none

-- `put_nowait`, which drops the newest item when the queue is full. `seen` is the value of the counter
-- that the increment has read.
unfoldable pub put_item : {A : Type 0} → ℕ → A → Lane A → Lane A
put_item seen item lane =
    if ltb (length lane.items) lane.capacity
    then record lane { items = lane.items ++ item ∷ [] }
    else record lane { refused = lane.refused ++ item ∷ []; dropped_enqueue_count = seen + 1 }

-- What `_connect` comes to: a socket; an OSError of `connect`, which is caught; an OSError of the
-- socket's creation, which is not.
pub data Dialled : Type 0 where
  answered unreachable uncreated : Dialled

-- What the operating system does with a message: `_connect` where it is called, whether `sendall`
-- returns, and whether `close` does after a failure.
pub record Attempt : Type 0 where
  pub dialled : Dialled
  pub sends : Bool
  pub closes : Bool

module _ {A : Type 0} where
  abbrev pub count_dropped : A → Lane A → Lane A
  count_dropped item lane = record lane {
    lost = lane.lost ++ item ∷ [];
    dropped_send_count = lane.dropped_send_count + 1;
  }

  abbrev pub count_delivered : A → Lane A → Lane A
  count_delivered item lane = record lane { delivered = lane.delivered ++ item ∷ [] }

module _ {F : Type 0} where
  -- The probe's thread alone counts here, and reads the counter as it stands.
  abbrev pub enqueue_detection : Payload F → TransportWorker F → TransportWorker F
  enqueue_detection payload w = record w {
    detections = put_item w.detections.dropped_enqueue_count payload w.detections;
  }

  -- Two threads call this, the pipeline's and the reader: an increment may have read an old value.
  abbrev pub enqueue_jpeg : ℕ → String → List ℕ → TransportWorker F → TransportWorker F
  enqueue_jpeg seen event_id jpeg w = record w {
    snapshots = put_item seen (event_id, jpeg) w.snapshots;
  }

  abbrev pub close_socket : TransportWorker F → TransportWorker F
  close_socket w = if w.has_socket then record w { has_socket = false; connected = false } else w

  abbrev pub drop_message : Held F → TransportWorker F → TransportWorker F
  drop_message (a_detection payload) w = record w {
    detections = count_dropped payload w.detections;
    sender = looping;
  }
  drop_message (a_jpeg event_id jpeg) w = record w {
    snapshots = count_dropped (event_id, jpeg) w.snapshots;
    sender = looping;
  }

  abbrev pub deliver_message : Held F → TransportWorker F → TransportWorker F
  deliver_message (a_detection payload) w = record w {
    detections = count_delivered payload w.detections;
    sender = looping;
  }
  deliver_message (a_jpeg event_id jpeg) w = record w {
    snapshots = count_delivered (event_id, jpeg) w.snapshots;
    sender = looping;
  }

  -- `_drain_snapshot_once` up to its call of `_send_snapshot`
  abbrev pub pop_jpeg : TransportWorker F → List (String × List ℕ) → TransportWorker F
  pop_jpeg w [] = record w { sender = waiting }
  pop_jpeg w ((event_id, jpeg) ∷ rest) = record w {
    snapshots = record w.snapshots { items = rest };
    sender = taken (a_jpeg event_id jpeg);
  }

  -- The `get` with its timeout
  abbrev pub pop_detection : TransportWorker F → List (Payload F) → TransportWorker F
  pop_detection w [] = record w { sender = looping }
  pop_detection w (payload ∷ rest) = record w {
    detections = record w.detections { items = rest };
    sender = taken (a_detection payload);
  }

  abbrev pub connect : Dialled → Held F → TransportWorker F → TransportWorker F
  connect answered held w = record w { has_socket = true; connected = true; sender = checked held }
  connect unreachable held w = drop_message held (record w { connected = false })
  connect uncreated held w = record w { sender = died held }

  -- `self._sock is None and not self._connect()`
  abbrev pub check_socket : Dialled → Held F → TransportWorker F → TransportWorker F
  check_socket dialled held w =
      if w.has_socket then record w { sender = checked held } else connect dialled held w

  -- `sendall` of the encoded frame; `none` is the OverflowError of a frame that cannot be encoded,
  -- which is no OSError.
  abbrev pub sendall : Option (List ℕ) → Bool → Held F → TransportWorker F → TransportWorker F
  sendall none sends held w = record w { sender = died held }
  sendall (some wire) true held w = deliver_message held w
  sendall (some wire) false held w = record w { sender = failing held }

  -- The assert, whose AssertionError nothing catches, and `sendall`.
  abbrev pub send_held : Option (List ℕ) → Bool → Held F → TransportWorker F → TransportWorker F
  send_held wire sends held w =
      if w.has_socket then sendall wire sends held w else record w { sender = died held }

  -- The handler of the OSError; the OSError of its own `close` is not caught.
  abbrev pub handle_failure : Bool → Held F → TransportWorker F → TransportWorker F
  handle_failure closes held w =
      if w.has_socket && (if closes then false else true)
      then record w { has_socket = false; sender = died held }
      else drop_message held (close_socket w)

-- `json.dumps` with the encoding of its text, and `str.encode`
pub record Encoders (F : Type 0) : Type 0 where
  pub dumps : Payload F → List ℕ
  pub encode_utf8 : String → List ℕ

module _ {F : Type 0} (encoders : Encoders F) where
  unfoldable pub encode_message : Payload F → Option (List ℕ)
  encode_message payload = encode_frame (encoders.dumps payload) frame_kind_detection

  abbrev pub encode_held : Held F → Option (List ℕ)
  encode_held (a_detection payload) = encode_message payload
  encode_held (a_jpeg event_id jpeg) = encode_snapshot_message (encoders.encode_utf8 event_id) jpeg

  -- The sender's course, `_sender_run` with `_send` and `_send_snapshot`, phase by phase.
  abbrev pub go_on : Attempt → TransportWorker F → Phase F → TransportWorker F
  go_on attempt w looping = pop_jpeg w w.snapshots.items
  go_on attempt w waiting = pop_detection w w.detections.items
  go_on attempt w (taken held) = check_socket attempt.dialled held w
  go_on attempt w (checked held) = send_held (encode_held held) attempt.sends held w
  go_on attempt w (failing held) = handle_failure attempt.closes held w
  go_on attempt w (died held) = w

  unfoldable pub sender_step : Attempt → TransportWorker F → TransportWorker F
  unfolding encode_message
  sender_step attempt w = go_on attempt w w.sender
