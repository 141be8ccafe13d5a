-- ===== src/Bridge/Rendezvous/Handler.antt =====
-- From an acknowledgement message to the rendezvous: `SnapshotAcknowledgementHandler` of deployment/
-- jetson/deepstream/bridge/app/deepstream_bridge/snapshot.py.
use edge_weapon_detection_pl.Base.{
  ℕ, String, Bool, true, false, ◌&&◌, not, Option, none, some, List,
}
use edge_weapon_detection_pl.Base.Eq.{◌==◌, string_eq}
use edge_weapon_detection_pl.Base.Int.{pos, int_beq}
use edge_weapon_detection_pl.Base.Dict.{get}
use edge_weapon_detection_pl.Float.{Float}
use edge_weapon_detection_pl.Json.{Value, Payload, Items, Fields}
use edge_weapon_detection_pl.Sync.Client.{text_of}
use edge_weapon_detection_pl.Bridge.Rendezvous.{SnapshotRendezvous, Ack, submit_ack}

module _ (float : Float) where
  open float use {F, le, zero_float}

  -- bool(value) of a JSON value, and of a key that is missing
  abbrev pub truthy : Option (Value F) → Bool
  truthy none = false
  truthy (some Value.null) = false
  truthy (some (Value.bool b)) = b
  truthy (some (Value.int n)) = not (int_beq n (pos 0))
  truthy (some (Value.float x)) = not (le x zero_float && le zero_float x)
  truthy (some (Value.str s)) = not (s == "")
  truthy (some (Value.arr Items.nil)) = false
  truthy (some (Value.arr (Items.cons v vs))) = true
  truthy (some (Value.obj Fields.end)) = false
  truthy (some (Value.obj (Fields.field k v fs))) = true

  abbrev pub ack_of : Payload F → Ack
  ack_of message = record {
    outcome = text_of (get message "outcome");
    event_id = text_of (get message "eventId");
    snapshot_required = truthy (get message "snapshotRequired");
  }

  abbrev pub submit_message :
      SnapshotRendezvous → Option String → Ack → ℕ → SnapshotRendezvous × Option (String × List ℕ)
  submit_message s none ack now = (s, none)
  submit_message s (some message_id) ack now = submit_ack s message_id ack now

  -- The snapshot that is returned is the one that `send_snapshot` is called with.
  unfoldable pub on_acknowledgement :
      SnapshotRendezvous → Payload F → ℕ → SnapshotRendezvous × Option (String × List ℕ)
  on_acknowledgement s message now =
      submit_message s (text_of (get message "messageId")) (ack_of message) now
