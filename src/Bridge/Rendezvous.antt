-- ===== src/Bridge/Rendezvous.antt =====
-- The meeting of a captured JPEG and the acknowledgement of its detection:
-- deployment/jetson/deepstream/bridge/app/deepstream_bridge/snapshot.py. Each method runs under one
-- lock, so it is one step; `now` is the clock reading that it takes, in whole ticks. A candidate is
-- reached through `by_message` alone, so an assignment to its attributes replaces it there.
pub mod Arrivals
pub mod Orders
pub mod Handler
use edge_weapon_detection_pl.Base.{
  ℕ, ◌+◌, ◌≡◌, ◌↔◌, arith, String, Bool, true, false, ◌&&◌, ◌||◌, not, Option, none, some, List, [],
  ◌∷◌, length, leb, ltb, keep, map, if◌then◌else◌,
}
use edge_weapon_detection_pl.Base.Int.{ℤ, int_beq, int_eq}
use edge_weapon_detection_pl.Base.Eq.{Equality, ◌==◌, string_eq}
use edge_weapon_detection_pl.Base.Dict.{Dict, get, put, pop}

-- (source_id, frame_number)
abbrev pub FrameKey : Type 0
FrameKey = ℤ × ℤ

abbrev pub frame_beq : FrameKey → FrameKey → Bool
frame_beq a b = int_beq a.0 b.0 && int_beq a.1 b.1

pub frame_beq_iff : (a b : FrameKey) → (frame_beq a b ≡ true) ↔ (a ≡ b)
frame_beq_iff a b = ground (arith, int_eq.same_iff a.0 b.0, int_eq.same_iff a.1 b.1)

instance abbrev pub frame_eq : Equality FrameKey
frame_eq = record { same = frame_beq; same_iff = frame_beq_iff }

-- `ack_outcome` is what the acknowledgement says, if it says it by a string.
pub record Candidate : Type 0 where
  pub source_id : ℤ
  pub frame_number : ℤ
  pub message_id : String
  pub expires_at : ℕ
  pub valve_matched : Bool
  pub jpeg_bytes : Option (List ℕ)
  pub ack_outcome : Option String
  pub event_id : Option String
  pub snapshot_required : Bool
  pub completed : Bool

abbrev pub frame_of : Candidate → FrameKey
frame_of c = (c.source_id, c.frame_number)

pub record SnapshotRendezvous : Type 0 where
  pub max_retained : ℕ
  pub ttl_seconds : ℕ
  pub by_message : Dict String Candidate
  pub by_frame : Dict FrameKey String

abbrev pub none_retained : ℕ → ℕ → SnapshotRendezvous
none_retained max_retained ttl = record {
  max_retained = max_retained;
  ttl_seconds = ttl;
  by_message = [];
  by_frame = [];
}

-- `none` is the ValueError for a bound that is not positive.
unfoldable pub start_rendezvous : ℕ → ℕ → Option SnapshotRendezvous
start_rendezvous max_retained ttl =
    if ltb 0 max_retained && ltb 0 ttl then some (none_retained max_retained ttl) else none

abbrev pub fresh_candidate : ℤ → String → ℤ → ℕ → Candidate
fresh_candidate source_id message_id frame_number expires_at = record {
  source_id = source_id;
  frame_number = frame_number;
  message_id = message_id;
  expires_at = expires_at;
  valve_matched = false;
  jpeg_bytes = none;
  ack_outcome = none;
  event_id = none;
  snapshot_required = false;
  completed = false;
}

-- `_remove_locked`
abbrev pub remove : Candidate → SnapshotRendezvous → SnapshotRendezvous
remove c s = record s {
  by_message = pop s.by_message c.message_id;
  by_frame = pop s.by_frame (frame_of c);
}

unfoldable pub remove_all : List Candidate → SnapshotRendezvous → SnapshotRendezvous
remove_all [] s = s
remove_all (c ∷ cs) s = remove_all cs (remove c s)

abbrev pub is_expired : ℕ → Candidate → Bool
is_expired now c = leb c.expires_at now && not c.completed

abbrev pub candidates : Dict String Candidate → List Candidate
candidates [] = []
candidates ((m, c) ∷ d) = c ∷ candidates d

-- `_expire_locked`
unfoldable pub expire : ℕ → SnapshotRendezvous → SnapshotRendezvous
expire now s = remove_all (keep (is_expired now) (candidates s.by_message)) s

-- The loop over the oldest candidates: each is popped with the key of its frame.
unfoldable pub evict_messages :
    ℕ → Dict String Candidate → Dict FrameKey String → Dict String Candidate × Dict FrameKey String
evict_messages limit [] frames = ([], frames)
evict_messages limit ((m, oldest) ∷ d) frames =
    let rest = evict_messages limit d (pop frames (frame_of oldest)) in
    if ltb limit (length ((m, oldest) ∷ d)) then rest else ((m, oldest) ∷ d, frames)

unfoldable pub evict_frames : ℕ → Dict FrameKey String → Dict FrameKey String
evict_frames limit [] = []
evict_frames limit ((k, m) ∷ d) =
    let rest = evict_frames limit d in if ltb limit (length ((k, m) ∷ d)) then rest else (k, m) ∷ d

-- d[k] = v and then d.move_to_end(k)
abbrev pub put_last {ℓ κ} : {K : Type ℓ} {V : Type κ} ⦃e : Equality K⦄ → Dict K V → K → V → Dict K V
put_last d k v = put (pop d k) k v

abbrev pub evict : SnapshotRendezvous → SnapshotRendezvous
evict s =
    let kept = evict_messages s.max_retained s.by_message s.by_frame in
    record s { by_message = kept.0; by_frame = evict_frames s.max_retained kept.1 }

abbrev pub register : ℤ → String → ℤ → ℕ → SnapshotRendezvous → SnapshotRendezvous
register source_id message_id frame_number now s = record s {
  by_message =
      put_last s.by_message message_id
        (fresh_candidate source_id message_id frame_number (now + s.ttl_seconds));
  by_frame = put_last s.by_frame (source_id, frame_number) message_id;
}

unfoldable pub record_detection : SnapshotRendezvous → ℤ → String → ℤ → ℕ → SnapshotRendezvous
record_detection s source_id message_id frame_number now =
    evict (register source_id message_id frame_number now (expire now s))

-- An assignment to the attributes of a candidate that is retained.
abbrev pub assign : String → Candidate → SnapshotRendezvous → SnapshotRendezvous
assign m c s = record s { by_message = put s.by_message m c }

abbrev pub with_key : String → Option Candidate → Option (String × Candidate)
with_key m none = none
with_key m (some c) = some (m, c)

-- `self._by_message.get(message_id)`, after `self._by_frame.get(key)`
abbrev pub lookup : SnapshotRendezvous → Option String → Option (String × Candidate)
lookup s none = none
lookup s (some m) = with_key m (get s.by_message m)

abbrev pub match_valve :
    SnapshotRendezvous → Option (String × Candidate) → SnapshotRendezvous × Bool
match_valve s none = (s, false)
match_valve s (some (m, c)) =
    if c.valve_matched then (s, false) else (assign m (record c { valve_matched = true }) s, true)

unfoldable pub consume_candidate : SnapshotRendezvous → ℤ → ℤ → ℕ → SnapshotRendezvous × Bool
consume_candidate s source_id frame_number now =
    let live = expire now s in
    match_valve live (lookup live (get live.by_frame (source_id, frame_number)))

abbrev pub both_halves : Option String → Option (List ℕ) → Option (String × List ℕ)
both_halves (some event_id) (some jpeg) = some (event_id, jpeg)
both_halves _ _ = none

abbrev pub is_accepted : Option String → Bool
is_accepted none = false
is_accepted (some outcome) = outcome == "accepted"

-- What `_try_complete_locked` returns.
unfoldable pub completion : Candidate → Option (String × List ℕ)
completion c =
    if c.completed || not (is_accepted c.ack_outcome) || not c.snapshot_required
    then none
    else both_halves c.event_id c.jpeg_bytes

-- The candidate after its attributes are assigned, completed and removed where both halves are there.
abbrev pub settle :
    String
    → Candidate
    → Option (String × List ℕ)
    → SnapshotRendezvous
    → SnapshotRendezvous × Option (String × List ℕ)
settle m c none s = (assign m c s, none)
settle m c (some sent) s = (remove c s, some sent)

unfoldable pub try_complete :
    String → Candidate → SnapshotRendezvous → SnapshotRendezvous × Option (String × List ℕ)
unfolding completion
try_complete m c s = settle m c (completion c) s

unfoldable pub take_jpeg :
    List ℕ
    → SnapshotRendezvous
    → Option (String × Candidate)
    → SnapshotRendezvous × Option (String × List ℕ)
unfolding try_complete
take_jpeg jpeg s none = (s, none)
take_jpeg jpeg s (some (m, c)) =
    if c.completed then (s, none) else try_complete m (record c { jpeg_bytes = some jpeg }) s

unfoldable pub submit_jpeg :
    SnapshotRendezvous → ℤ → ℤ → List ℕ → ℕ → SnapshotRendezvous × Option (String × List ℕ)
unfolding take_jpeg
submit_jpeg s source_id frame_number jpeg now =
    let live = expire now s in
    take_jpeg jpeg live (lookup live (get live.by_frame (source_id, frame_number)))

-- The fields of an acknowledgement; one that is no string counts as missing.
pub record Ack : Type 0 where
  pub outcome : Option String
  pub event_id : Option String
  pub snapshot_required : Bool

unfoldable pub take_ack :
    Ack
    → SnapshotRendezvous
    → Option (String × Candidate)
    → SnapshotRendezvous × Option (String × List ℕ)
unfolding try_complete
take_ack ack s none = (s, none)
take_ack ack s (some (m, c)) =
    if c.completed
    then (s, none)
    else if not (is_accepted ack.outcome) || not ack.snapshot_required
    then (remove c s, none)
    else try_complete m
        (record c {
          ack_outcome = ack.outcome;
          event_id = ack.event_id;
          snapshot_required = ack.snapshot_required;
        })
        s

unfoldable pub submit_ack :
    SnapshotRendezvous → String → Ack → ℕ → SnapshotRendezvous × Option (String × List ℕ)
unfolding take_ack
submit_ack s message_id ack now =
    let live = expire now s in take_ack ack live (lookup live (some message_id))

unfoldable pub clear : SnapshotRendezvous → SnapshotRendezvous
clear s = record s { by_message = []; by_frame = [] }

-- `len(rendezvous)` expires first, like every other method.
unfoldable pub size : SnapshotRendezvous → ℕ → SnapshotRendezvous × ℕ
size s now = let live = expire now s in (live, length live.by_message)
