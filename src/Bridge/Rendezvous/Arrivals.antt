-- ===== src/Bridge/Rendezvous/Arrivals.antt =====
-- The calls of the pad probe, the valve, the appsink and the reader thread, in any order, and which
-- of the steps retain no more than before.
pub mod Budget
use edge_weapon_detection_pl.Base.{
  ℕ, suc, ◌+◌, ◌≤◌, ◌≡◌, refl, arith, String, Bool, true, false, Option, none, some, List, [], ◌∷◌,
  length, ltb, if◌then◌else◌, Bool-cases, Option-cases, inl, inr, keep, All, ◌∙◌, not, ◌||◌, sym,
  sym, subst,
}
use edge_weapon_detection_pl.Base.Int.{ℤ, int_eq}
use edge_weapon_detection_pl.Base.Eq.{string_eq}
use edge_weapon_detection_pl.Base.Dict.{
  Dict, get, put, pop, length-pop, length-put, length-put_there, length-pop_there, All-pop, All-put,
  All-get,
}
use edge_weapon_detection_pl.Bridge.Rendezvous.{
  FrameKey, is_accepted, frame_of, frame_eq, Candidate, SnapshotRendezvous, Ack, remove, remove_all,
  candidates, is_expired, expire, evict_messages, evict_frames, evict, register, record_detection,
  assign, lookup, match_valve, consume_candidate, completion, settle, try_complete, take_jpeg,
  submit_jpeg, take_ack, submit_ack, clear,
}

-- A call, with the reading of the clock that it takes.
pub data Arrival : Type 0 where
  detection : ℤ → String → ℤ → ℕ → Arrival
  valve : ℤ → ℤ → ℕ → Arrival
  jpeg : ℤ → ℤ → List ℕ → ℕ → Arrival
  acknowledgement : String → Ack → ℕ → Arrival
  shutdown : Arrival

abbrev pub is_detection : Arrival → Bool
is_detection (detection source_id m frame_number now) = true
is_detection (valve source_id frame_number now) = false
is_detection (jpeg source_id frame_number bytes now) = false
is_detection (acknowledgement m ack now) = false
is_detection shutdown = false

-- The state after a call, and the snapshot that the caller then sends.
unfoldable pub arrive : SnapshotRendezvous → Arrival → SnapshotRendezvous × Option (String × List ℕ)
arrive s (detection source_id message_id frame_number now) =
    (record_detection s source_id message_id frame_number now, none)
arrive s (valve source_id frame_number now) =
    ((consume_candidate s source_id frame_number now).0, none)
arrive s (jpeg source_id frame_number bytes now) = submit_jpeg s source_id frame_number bytes now
arrive s (acknowledgement message_id ack now) = submit_ack s message_id ack now
arrive s shutdown = (clear s, none)

unfoldable pub arrive_all : SnapshotRendezvous → List Arrival → SnapshotRendezvous
arrive_all s [] = s
arrive_all s (a ∷ as_) = arrive_all (arrive s a).0 as_

abbrev pub IsBounded : SnapshotRendezvous → Type 0
IsBounded s = (length s.by_message ≤ s.max_retained) × (length s.by_frame ≤ s.max_retained)

-- Every candidate is kept under its own message.
abbrev pub OwnKey : String × Candidate → Type 0
OwnKey entry = entry.1.message_id ≡ entry.0

abbrev pub IsKeyed : Dict String Candidate → Type 0
IsKeyed d = All OwnKey d

-- A step that does not retain more than was retained.
pub record Shrinks (s s' : SnapshotRendezvous) : Type 0 where
  pub limit : s'.max_retained ≡ s.max_retained
  pub messages : length s'.by_message ≤ length s.by_message
  pub frames : length s'.by_frame ≤ length s.by_frame
  pub keyed : IsKeyed s.by_message → IsKeyed s'.by_message

pub Shrinks-refl : (s : SnapshotRendezvous) → Shrinks s s
Shrinks-refl s = record {
  limit = refl;
  messages = omega arith;
  frames = omega arith;
  keyed = λ k. k;
}

pub Shrinks-trans : (r s t : SnapshotRendezvous) → Shrinks r s → Shrinks s t → Shrinks r t
Shrinks-trans r s t h k = record {
  limit = k.limit ∙ h.limit;
  messages = omega (arith, h.messages, k.messages);
  frames = omega (arith, h.frames, k.frames);
  keyed = λ key. k.keyed (h.keyed key);
}

pub remove-Shrinks : (c : Candidate) (s : SnapshotRendezvous) → Shrinks s (remove c s)
remove-Shrinks c s = record {
  limit = refl;
  messages = length-pop s.by_message c.message_id;
  frames = length-pop s.by_frame (frame_of c);
  keyed = All-pop OwnKey s.by_message c.message_id;
}

pub remove_all-Shrinks :
    (cs : List Candidate) (s : SnapshotRendezvous) → Shrinks s (remove_all cs s)
unfolding remove_all
remove_all-Shrinks [] s = Shrinks-refl s
remove_all-Shrinks (c ∷ cs) s =
    Shrinks-trans s (remove c s) (remove_all cs (remove c s)) (remove-Shrinks c s)
      (remove_all-Shrinks cs (remove c s))

pub expire-Shrinks : (now : ℕ) (s : SnapshotRendezvous) → Shrinks s (expire now s)
unfolding expire
expire-Shrinks now s = remove_all-Shrinks (keep (is_expired now) (candidates s.by_message)) s

pub assign-Shrinks :
    (m : String) (c c' : Candidate) (s : SnapshotRendezvous)
    → get s.by_message m ≡ some c
    → c'.message_id ≡ m
    → Shrinks s (assign m c' s)
assign-Shrinks m c c' s found own =
    let same = length-put_there s.by_message m c' {w = c} found in
    record {
      limit = refl;
      messages = omega arith;
      frames = omega arith;
      keyed = All-put OwnKey s.by_message m c' own;
    }

pub length-evict_messages :
    (limit : ℕ) (d : Dict String Candidate) (frames : Dict FrameKey String)
    → (length (evict_messages limit d frames).0 ≤ limit)
      × (length (evict_messages limit d frames).0 ≤ length d)
unfolding evict_messages
length-evict_messages limit [] frames = ground arith
length-evict_messages limit ((m, c) ∷ d) frames =
    ground (arith, length-evict_messages limit d (pop frames (frame_of c)))

length-evict_frames : (limit : ℕ) (d : Dict FrameKey String) → length (evict_frames limit d) ≤ limit
unfolding evict_frames
length-evict_frames limit [] = ground arith
length-evict_frames limit ((k, m) ∷ d) = ground (arith, length-evict_frames limit d)

pub evict-IsBounded : (s : SnapshotRendezvous) → IsBounded (evict s)
evict-IsBounded s = (
  (length-evict_messages s.max_retained s.by_message s.by_frame).0,
  length-evict_frames s.max_retained (evict_messages s.max_retained s.by_message s.by_frame).1,
)
