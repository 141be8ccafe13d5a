-- ===== src/Bridge/Reader.antt =====
-- The reader of the Bridge: `_read_one_frame` and `_recv_exact` of deployment/jetson/deepstream/bridge/
-- app/deepstream_bridge/transport.py, and `decode_acknowledgement` of protocol.py. `bytes.decode` and
-- `json.loads` are given.
pub mod Exact
use edge_weapon_detection_pl.Base.{
  ℕ, zero, suc, ◌+◌, ◌-◌, ◌≡◌, String, Bool, true, false, Option, none, some, List, [], ◌∷◌, ◌++◌,
  length, take, drop, ltb, nat_beq, if◌then◌else◌,
}
use edge_weapon_detection_pl.Json.{Value}
use edge_weapon_detection_pl.Protocol.{
  decode_frame_header, frame_header_bytes, frame_kind_acknowledgement, max_frame_bytes,
}
use edge_weapon_detection_pl.Ingest.Connection.{Decoders, Loaded, value, not_json, crashed}

-- What the socket holds for its successive calls of `recv`: bytes that have arrived together, or a
-- call that raises because of the timeout or of an OSError. Empty bytes are the end of the stream.
pub data Incoming : Type 0 where
  arrived : List ℕ → Incoming
  raises : Incoming

-- What is left after `n` bytes of a chunk were received.
abbrev pub remaining : List ℕ → List Incoming → List Incoming
remaining [] incoming = incoming
remaining (b ∷ bs) incoming = arrived (b ∷ bs) ∷ incoming

-- `out_of_turns` is a loop whose turns were used up, which never happens.
pub data Received : Type 0 where
  received : List ℕ → List Incoming → Received
  unavailable : List Incoming → Received
  out_of_turns : Received

-- The loop of `_recv_exact` in at most `turns` turns, with the bytes that it holds so far.
unfoldable pub recv_from : ℕ → ℕ → List ℕ → List Incoming → Received
recv_from turns zero chunks incoming = received chunks incoming
recv_from zero (suc missing) chunks incoming = out_of_turns
recv_from (suc turns) (suc missing) chunks [] = unavailable []
recv_from (suc turns) (suc missing) chunks (raises ∷ incoming) = unavailable incoming
recv_from (suc turns) (suc missing) chunks (arrived [] ∷ incoming) = unavailable incoming
recv_from (suc turns) (suc missing) chunks (arrived (b ∷ bs) ∷ incoming) =
    recv_from turns (missing - length bs) (chunks ++ take (suc missing) (b ∷ bs))
      (remaining (drop (suc missing) (b ∷ bs)) incoming)

-- Each turn but the last receives a byte, so that `size` turns are enough.
abbrev pub recv_exact : ℕ → List Incoming → Received
recv_exact size incoming = recv_from size size [] incoming

module _ {F : Type 0} (decoders : Decoders F) where
  -- `decode_acknowledgement`; the UnicodeDecodeError is a ValueError like `not_json`.
  unfoldable pub decode_acknowledgement : List ℕ → Loaded F
  decode_acknowledgement body = elim (decoders.decode_utf8 body) [
    | none ↦ not_json
    | some text ↦ decoders.loads text
  ]

-- What a turn of the reader does. `oversized` has closed the socket; `acknowledged` is the call of
-- the callback, whose exceptions are caught.
pub data ReaderTurn (F : Type 0) : Type 0 where
  no_connection : List Incoming → ReaderTurn F
  oversized : List Incoming → ReaderTurn F
  ignored : List Incoming → ReaderTurn F
  undecodable : List Incoming → ReaderTurn F
  acknowledged : Value F → List Incoming → ReaderTurn F
  reader_died : ReaderTurn F

module _ {F : Type 0} (decoders : Decoders F) where
  abbrev pub dispatch : Loaded F → List Incoming → ReaderTurn F
  dispatch (value message) rest = acknowledged message rest
  dispatch not_json rest = undecodable rest
  dispatch crashed rest = reader_died

  abbrev pub after_body : ℕ → Received → ReaderTurn F
  after_body kind (received body rest) =
      if nat_beq kind frame_kind_acknowledgement
      then dispatch (decode_acknowledgement decoders body) rest
      else ignored rest
  after_body kind (unavailable rest) = no_connection rest
  after_body kind out_of_turns = reader_died

  abbrev pub after_parsed : ℕ × ℕ → List Incoming → ReaderTurn F
  after_parsed (kind, size) rest =
      if ltb max_frame_bytes size then oversized rest else after_body kind (recv_exact size rest)

  abbrev pub after_header : Received → ReaderTurn F
  after_header (received header rest) = after_parsed (decode_frame_header header) rest
  after_header (unavailable rest) = no_connection rest
  after_header out_of_turns = reader_died

  -- `connected` says that the sender has a socket.
  unfoldable pub read_one_frame : Bool → List Incoming → ReaderTurn F
  unfolding recv_from decode_acknowledgement decode_frame_header
  read_one_frame connected incoming =
      if connected
      then after_header (recv_exact frame_header_bytes incoming)
      else no_connection incoming
