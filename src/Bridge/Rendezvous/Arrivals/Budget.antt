-- ===== src/Bridge/Rendezvous/Arrivals/Budget.antt =====
-- The rendezvous stays within its bounds, and sends no more snapshots than detections are registered.
use edge_weapon_detection_pl.Base.{
  ℕ, suc, ◌+◌, ◌≤◌, ◌≡◌, refl, arith, String, Bool, true, false, Option, none, some, List, [], ◌∷◌,
  length, ltb, if◌then◌else◌, Bool-cases, inl, inr, ◌∙◌, not, ◌||◌, ◌&&◌, sym, sym, subst,
}
use edge_weapon_detection_pl.Base.Int.{ℤ, int_eq}
use edge_weapon_detection_pl.Base.Eq.{string_eq}
use edge_weapon_detection_pl.Base.Dict.{
  Dict, get, pop, length-pop, length-put, length-pop_there, All-pop, All-put, All-get,
}
use edge_weapon_detection_pl.Bridge.Rendezvous.{
  FrameKey, is_accepted, frame_of, frame_eq, Candidate, SnapshotRendezvous, Ack, remove, expire,
  evict_messages, register, record_detection, assign, lookup, match_valve, consume_candidate,
  settle, try_complete, take_jpeg, submit_jpeg, take_ack, submit_ack, clear, start_rendezvous,
  fresh_candidate, none_retained,
}
use edge_weapon_detection_pl.Bridge.Rendezvous.Arrivals.{
  Arrival, detection, valve, jpeg, acknowledgement, shutdown, is_detection, arrive, arrive_all,
  IsBounded, OwnKey, IsKeyed, Shrinks, Shrinks-refl, Shrinks-trans, remove-Shrinks, expire-Shrinks,
  assign-Shrinks, evict-IsBounded, length-evict_messages,
}

abbrev pub spent : Option (String × List ℕ) → ℕ
spent none = 0
spent (some sent) = 1

-- A snapshot that is sent takes its candidate out.
record Pays (s : SnapshotRendezvous) (r : SnapshotRendezvous × Option (String × List ℕ))
    : Type 0 where
  limit : r.0.max_retained ≡ s.max_retained
  messages : length r.0.by_message + spent r.1 ≤ length s.by_message
  frames : length r.0.by_frame ≤ length s.by_frame
  keyed : IsKeyed s.by_message → IsKeyed r.0.by_message

Shrinks-Pays : (s t : SnapshotRendezvous) → Shrinks s t → Pays s (t, none)
Shrinks-Pays s t h = record {
  limit = h.limit;
  messages = omega (arith, h.messages);
  frames = h.frames;
  keyed = h.keyed;
}

Pays-after :
    (s t : SnapshotRendezvous) (r : SnapshotRendezvous × Option (String × List ℕ))
    → Shrinks s t
    → Pays t r
    → Pays s r
Pays-after s t r h p = record {
  limit = p.limit ∙ h.limit;
  messages = omega (arith, h.messages, p.messages);
  frames = omega (arith, h.frames, p.frames);
  keyed = λ key. p.keyed (h.keyed key);
}

Pays-if :
    (b : Bool) (s : SnapshotRendezvous) (x y : SnapshotRendezvous × Option (String × List ℕ))
    → Pays s x
    → Pays s y
    → Pays s (if b then x else y)
Pays-if true s x y p q = p
Pays-if false s x y p q = q

settle-Pays :
    (m : String) (c : Candidate) (r : Option (String × List ℕ)) (s : SnapshotRendezvous)
    {old : Candidate}
    → get s.by_message m ≡ some old
    → c.message_id ≡ m
    → Pays s (settle m c r s)
settle-Pays m c none s {old} found own =
    Shrinks-Pays s (assign m c s) (assign-Shrinks m old c s found own)
settle-Pays m c (some sent) s {old} found own =
    let there = subst (λ k. get s.by_message k ≡ some old) (sym own) found in
    let gone = length-pop_there s.by_message c.message_id {w = old} there in
    record {
      limit = refl;
      messages = omega arith;
      frames = length-pop s.by_frame (frame_of c);
      keyed = All-pop OwnKey s.by_message c.message_id;
    }

-- What a lookup gives is retained under its key.
lookup-eq :
    (s : SnapshotRendezvous) (o : Option String) (m : String) (c : Candidate)
    → lookup s o ≡ some (m, c)
    → get s.by_message m ≡ some c
lookup-eq s none m c h = cc
lookup-eq s (some k) m c h = ground arith

module _ (s : SnapshotRendezvous) (keys : IsKeyed s.by_message) (o : Option String) where
  own_key : (m : String) (c : Candidate) → lookup s o ≡ some (m, c) → c.message_id ≡ m
  own_key m c found = All-get OwnKey s.by_message m {v = c} (lookup-eq s o m c found) keys

  match_valve-Shrinks :
      (q : Option (String × Candidate)) → lookup s o ≡ q → Shrinks s (match_valve s q).0
  match_valve-Shrinks none found = Shrinks-refl s
  match_valve-Shrinks (some (m, c)) found = elim (Bool-cases c.valve_matched) [
    | inl matched ↦ rw matched (Shrinks-refl s)
    | inr free ↦ simp free (assign-Shrinks m c _ s (lookup-eq s o m c found) (own_key m c found))
  ]

  take_jpeg-Pays :
      (bytes : List ℕ) (q : Option (String × Candidate))
      → lookup s o ≡ q
      → Pays s (take_jpeg bytes s q)
  unfolding take_jpeg try_complete
  take_jpeg-Pays bytes none found = Shrinks-Pays s s (Shrinks-refl s)
  take_jpeg-Pays bytes (some (m, c)) found =
      Pays-if c.completed s _ _ (Shrinks-Pays s s (Shrinks-refl s))
        (settle-Pays m _ _ s {old = c} (lookup-eq s o m c found) (own_key m c found))

  take_ack-Pays :
      (ack : Ack) (q : Option (String × Candidate)) → lookup s o ≡ q → Pays s (take_ack ack s q)
  unfolding take_ack try_complete
  take_ack-Pays ack none found = Shrinks-Pays s s (Shrinks-refl s)
  take_ack-Pays ack (some (m, c)) found =
      Pays-if c.completed s _ _ (Shrinks-Pays s s (Shrinks-refl s)) (
        Pays-if (not (is_accepted ack.outcome) || not ack.snapshot_required) s _ _
          (Shrinks-Pays s (remove c s) (remove-Shrinks c s))
          (settle-Pays m _ _ s {old = c} (lookup-eq s o m c found) (own_key m c found)))

evict_messages-IsKeyed :
    (limit : ℕ) (d : Dict String Candidate) (frames : Dict FrameKey String)
    → IsKeyed d
    → IsKeyed (evict_messages limit d frames).0
unfolding evict_messages
evict_messages-IsKeyed limit [] frames h = tt
evict_messages-IsKeyed limit ((m, c) ∷ d) frames h =
    elim (Bool-cases (ltb limit (length ((m, c) ∷ d)))) [
      | inl over ↦ rw over (evict_messages-IsKeyed limit d (pop frames (frame_of c)) h.1)
      | inr fits ↦ rw fits h
    ]

-- Within the bounds, every candidate under its own message.
abbrev IsHeld : SnapshotRendezvous → Type 0
IsHeld s = IsBounded s × IsKeyed s.by_message

Pays-IsHeld :
    (s : SnapshotRendezvous) (r : SnapshotRendezvous × Option (String × List ℕ))
    → Pays s r
    → IsHeld s
    → IsHeld r.0
Pays-IsHeld s r p h = (ground (arith, p.limit, p.messages, p.frames, h.0), p.keyed h.1)

record_detection-IsHeld :
    (s : SnapshotRendezvous) (source_id : ℤ) (m : String) (frame_number : ℤ) (now : ℕ)
    → IsHeld s
    → IsHeld (record_detection s source_id m frame_number now)
unfolding record_detection
record_detection-IsHeld s source_id m frame_number now h =
    let live = expire now s in
    let added = register source_id m frame_number now live in
    let keys =
      All-put OwnKey (pop live.by_message m) m _ refl
        (All-pop OwnKey live.by_message m ((expire-Shrinks now s).keyed h.1)) in
    (
      evict-IsBounded added,
      evict_messages-IsKeyed added.max_retained added.by_message added.by_frame keys,
    )

-- Every call but a registration.
arrive-Pays :
    (s : SnapshotRendezvous) (a : Arrival)
    → is_detection a ≡ false
    → IsKeyed s.by_message
    → Pays s (arrive s a)
unfolding arrive consume_candidate submit_jpeg submit_ack clear
arrive-Pays s (detection source_id m frame_number now) h keys = cc
arrive-Pays s (valve source_id frame_number now) h keys =
    let live = expire now s in
    let shrunk = expire-Shrinks now s in
    Shrinks-Pays s _ (
      Shrinks-trans s live _ shrunk (
        match_valve-Shrinks live (shrunk.keyed keys) (get live.by_frame (source_id, frame_number)) _
          refl))
arrive-Pays s (jpeg source_id frame_number bytes now) h keys =
    let live = expire now s in
    let shrunk = expire-Shrinks now s in
    Pays-after s live _ shrunk (
      take_jpeg-Pays live (shrunk.keyed keys) (get live.by_frame (source_id, frame_number)) bytes _
        refl)
arrive-Pays s (acknowledgement m ack now) h keys =
    let live = expire now s in
    let shrunk = expire-Shrinks now s in
    Pays-after s live _ shrunk (take_ack-Pays live (shrunk.keyed keys) (some m) ack _ refl)
arrive-Pays s shutdown h keys = record {
  limit = refl;
  messages = omega arith;
  frames = omega arith;
  keyed = λ k. tt;
}

arrive-IsHeld : (s : SnapshotRendezvous) (a : Arrival) → IsHeld s → IsHeld (arrive s a).0
unfolding arrive
arrive-IsHeld s (detection source_id m frame_number now) h =
    record_detection-IsHeld s source_id m frame_number now h
arrive-IsHeld s (valve source_id frame_number now) h =
    Pays-IsHeld s _ (arrive-Pays s (valve source_id frame_number now) refl h.1) h
arrive-IsHeld s (jpeg source_id frame_number bytes now) h =
    Pays-IsHeld s _ (arrive-Pays s (jpeg source_id frame_number bytes now) refl h.1) h
arrive-IsHeld s (acknowledgement m ack now) h =
    Pays-IsHeld s _ (arrive-Pays s (acknowledgement m ack now) refl h.1) h
arrive-IsHeld s shutdown h = Pays-IsHeld s _ (arrive-Pays s shutdown refl h.1) h

arrive_all-IsHeld :
    (s : SnapshotRendezvous) (calls : List Arrival) → IsHeld s → IsHeld (arrive_all s calls)
unfolding arrive_all
arrive_all-IsHeld s [] h = h
arrive_all-IsHeld s (a ∷ calls) h = arrive_all-IsHeld (arrive s a).0 calls (arrive-IsHeld s a h)

start_rendezvous-IsHeld :
    (max_retained ttl : ℕ) (s : SnapshotRendezvous)
    → start_rendezvous max_retained ttl ≡ some s
    → IsHeld s
unfolding start_rendezvous
start_rendezvous-IsHeld max_retained ttl s e = elim (Bool-cases (ltb 0 max_retained && ltb 0 ttl)) [
  | inl fine ↦
      let made : none_retained max_retained ttl ≡ s = ground arith in
      subst IsHeld made ((omega arith, omega arith), tt)
  | inr wrong ↦ ground arith
]

start_rendezvous-empty :
    (max_retained ttl : ℕ) (s : SnapshotRendezvous)
    → start_rendezvous max_retained ttl ≡ some s
    → length s.by_message ≡ 0
unfolding start_rendezvous
start_rendezvous-empty max_retained ttl s e = elim (Bool-cases (ltb 0 max_retained && ltb 0 ttl)) [
  | inl fine ↦
      let made : none_retained max_retained ttl ≡ s = ground arith in
      subst (λ r. length r.by_message ≡ 0) made refl
  | inr wrong ↦ ground arith
]

-- The snapshots that are sent in the course of the calls.
unfoldable pub sends : SnapshotRendezvous → List Arrival → ℕ
sends s [] = 0
sends s (a ∷ calls) = spent (arrive s a).1 + sends (arrive s a).0 calls

unfoldable pub registrations : List Arrival → ℕ
registrations [] = 0
registrations (a ∷ calls) = (if is_detection a then 1 else 0) + registrations calls

length-record_detection :
    (s : SnapshotRendezvous) (source_id : ℤ) (m : String) (frame_number : ℤ) (now : ℕ)
    → length (record_detection s source_id m frame_number now).by_message
      ≤ suc (length s.by_message)
unfolding record_detection
length-record_detection s source_id m frame_number now =
    let live = expire now s in
    let added = register source_id m frame_number now live in
    let shrunk = (expire-Shrinks now s).messages in
    let popped = length-pop live.by_message m in
    let written =
      length-put (pop live.by_message m) m
        (fresh_candidate source_id m frame_number (now + live.ttl_seconds)) in
    let kept = (length-evict_messages added.max_retained added.by_message added.by_frame).1 in
    omega arith

arrive-spent :
    (s : SnapshotRendezvous) (a : Arrival)
    → IsKeyed s.by_message
    → length (arrive s a).0.by_message + spent (arrive s a).1
      ≤ length s.by_message + (if is_detection a then 1 else 0)
unfolding arrive
arrive-spent s (detection source_id m frame_number now) keys =
    omega (arith, length-record_detection s source_id m frame_number now)
arrive-spent s (valve source_id frame_number now) keys =
    omega (arith, (arrive-Pays s (valve source_id frame_number now) refl keys).messages)
arrive-spent s (jpeg source_id frame_number bytes now) keys =
    omega (arith, (arrive-Pays s (jpeg source_id frame_number bytes now) refl keys).messages)
arrive-spent s (acknowledgement m ack now) keys =
    omega (arith, (arrive-Pays s (acknowledgement m ack now) refl keys).messages)
arrive-spent s shutdown keys = omega (arith, (arrive-Pays s shutdown refl keys).messages)

sends-registrations :
    (s : SnapshotRendezvous) (calls : List Arrival)
    → IsHeld s
    → sends s calls + length (arrive_all s calls).by_message
      ≤ length s.by_message + registrations calls
unfolding sends registrations arrive_all
sends-registrations s [] h = omega arith
sends-registrations s (a ∷ calls) h =
    omega
      (arith, arrive-spent s a h.1, sends-registrations (arrive s a).0 calls (arrive-IsHeld s a h))

-- From the start, whatever the calls and their order: neither index of the rendezvous holds more than
-- `max_retained` entries, and no more snapshots are sent than detections are registered, every
-- candidate that is still retained being one of the rest.
pub arrive_all-IsBounded :
    (max_retained ttl : ℕ) (s : SnapshotRendezvous) (calls : List Arrival)
    → start_rendezvous max_retained ttl ≡ some s
    → IsBounded (arrive_all s calls)
      × (sends s calls + length (arrive_all s calls).by_message ≤ registrations calls)
arrive_all-IsBounded max_retained ttl s calls e =
    let held = start_rendezvous-IsHeld max_retained ttl s e in
    let empty = start_rendezvous-empty max_retained ttl s e in
    ((arrive_all-IsHeld s calls held).0, omega (arith, sends-registrations s calls held))
