-- ===== src/Bridge/Transport/Accounts.antt =====
-- Where every message that is offered to the transport ends up.
use edge_weapon_detection_pl.Base.{
  ℕ, suc, ◌+◌, ◌≤◌, ◌≡◌, refl, arith, String, Bool, true, false, Option, none, some, List, [], ◌∷◌,
  ◌++◌, length, length-append, ltb, Bool-cases, inl, inr, if◌then◌else◌, subst, ap, ◌∙◌,
}
use edge_weapon_detection_pl.Base.Rows.{count_rows, count-append, count-join}
use edge_weapon_detection_pl.Json.{Payload}
use edge_weapon_detection_pl.Bridge.Transport.{
  Lane, Held, a_detection, a_jpeg, Phase, looping, waiting, taken, checked, failing, died,
  TransportWorker, start_lane, create, put_item, Dialled, answered, unreachable, uncreated, Attempt,
  count_dropped, count_delivered, enqueue_detection, enqueue_jpeg, close_socket, drop_message,
  deliver_message, pop_jpeg, pop_detection, connect, check_socket, sendall, handle_failure,
  Encoders, encode_held, go_on, sender_step,
}

-- How many of the items that pass the test wait, were refused, were lost, or were delivered.
abbrev pub offered : {A : Type 0} → (A → Bool) → Lane A → ℕ
offered test lane =
    count_rows test lane.items
    + count_rows test lane.refused
    + count_rows test lane.lost
    + count_rows test lane.delivered

abbrev pub InBounds : {A : Type 0} → Lane A → Type 0
InBounds lane = length lane.items ≤ lane.capacity

-- What a step does to a lane that is offered the items `n`, where the sender holds the items `h` before
-- and `h'` after. `Counts` says how the counter stands to the number of the refused items.
pub record Keeps {A : Type 0} (Counts : ℕ → ℕ → Type 0) (n h h' : List A) (l l' : Lane A)
    : Type 0 where
  pub capacity : l'.capacity ≡ l.capacity
  pub account :
      (test : A → Bool)
      → offered test l' + count_rows test h'
        ≡ offered test l + count_rows test h + count_rows test n
  pub bounds : InBounds l → InBounds l'
  pub counted :
      Counts l.dropped_enqueue_count (length l.refused)
      → Counts l'.dropped_enqueue_count (length l'.refused)
  pub sent : l.dropped_send_count ≡ length l.lost → l'.dropped_send_count ≡ length l'.lost

abbrev pub Exact : ℕ → ℕ → Type 0
Exact a b = a ≡ b

abbrev pub AtMost : ℕ → ℕ → Type 0
AtMost a b = a ≤ b

-- An item is put at the end of a lane: `seen` is what the counter's increment read.
put_item-Keeps :
    {A : Type 0} (Counts : ℕ → ℕ → Type 0) (seen : ℕ) (item : A) (lane : Lane A) (h : List A)
    → (Counts lane.dropped_enqueue_count (length lane.refused)
        → Counts (seen + 1) (length (lane.refused ++ item ∷ [])))
    → Keeps Counts (item ∷ []) h h lane (put_item seen item lane)
unfolding put_item
put_item-Keeps Counts seen item lane h counts =
    let more = length-append lane.items (item ∷ []) in
    elim (Bool-cases (ltb (length lane.items) lane.capacity)) [
      | inl room ↦ simp room (record {
        capacity = refl;
        account = λ test. let c = count-append test lane.items item in omega arith;
        bounds = λ p. ground (arith, room, more);
        counted = λ p. p;
        sent = λ p. p;
      })
      | inr full ↦ simp full (record {
        capacity = refl;
        account = λ test. let c = count-append test lane.refused item in omega arith;
        bounds = λ p. p;
        counted = counts;
        sent = λ p. p;
      })
    ]

module _ {A : Type 0} (Counts : ℕ → ℕ → Type 0) where
  Keeps-refl : (h : List A) (lane : Lane A) → Keeps Counts [] h h lane lane
  Keeps-refl h lane = record {
    capacity = refl;
    account = λ test. omega arith;
    bounds = λ p. p;
    counted = λ p. p;
    sent = λ p. p;
  }

  Keeps-trans :
      (m n h i j : List A) (k l l' : Lane A)
      → Keeps Counts m h i k l
      → Keeps Counts n i j l l'
      → Keeps Counts (m ++ n) h j k l'
  Keeps-trans m n h i j k l l' p q = record {
    capacity = q.capacity ∙ p.capacity;
    account = λ test. omega (arith, p.account test, q.account test, count-join test m n);
    bounds = λ b. q.bounds (p.bounds b);
    counted = λ c. q.counted (p.counted c);
    sent = λ c. q.sent (p.sent c);
  }

  -- The sender takes the first item of the queue.
  Keeps-take :
      (lane : Lane A) (item : A) (rest : List A)
      → lane.items ≡ item ∷ rest
      → Keeps Counts [] [] (item ∷ []) lane (record lane { items = rest })
  Keeps-take lane item rest e =
      let size : length lane.items ≡ suc (length rest) = rw e refl in
      record {
        capacity = refl;
        account = λ test.
            let split : count_rows test lane.items ≡ count_rows test (item ∷ rest) = rw e refl in
            omega arith;
        bounds = λ b. omega arith;
        counted = λ c. c;
        sent = λ c. c;
      }

  Keeps-drop :
      (item : A) (lane : Lane A) → Keeps Counts [] (item ∷ []) [] lane (count_dropped item lane)
  Keeps-drop item lane =
      let more = length-append lane.lost (item ∷ []) in
      record {
        capacity = refl;
        account = λ test. let c = count-append test lane.lost item in omega arith;
        bounds = λ b. b;
        counted = λ c. c;
        sent = λ c. omega arith;
      }

  Keeps-deliver :
      (item : A) (lane : Lane A) → Keeps Counts [] (item ∷ []) [] lane (count_delivered item lane)
  Keeps-deliver item lane = record {
    capacity = refl;
    account = λ test. let c = count-append test lane.delivered item in omega arith;
    bounds = λ b. b;
    counted = λ c. c;
    sent = λ c. c;
  }

  Keeps-start :
      (n h h' : List A) (c : ℕ) (l l' : Lane A)
      → Counts 0 0
      → Keeps Counts n h h' l l'
      → l ≡ start_lane c
      → h ≡ []
      → ((test : A → Bool) → offered test l' + count_rows test h' ≡ count_rows test n)
        × (length l'.items ≤ c)
        × Counts l'.dropped_enqueue_count (length l'.refused)
        × (l'.dropped_send_count ≡ length l'.lost)
  Keeps-start n h h' c l l' zeros kept fresh free =
      let k : Keeps Counts n [] h' (start_lane c) l' =
        subst (λ i. Keeps Counts n i h' (start_lane c) l') free
          (subst (λ i. Keeps Counts n h h' i l') fresh kept) in
      let room = k.bounds (omega arith) in
      (
        (λ test. omega (arith, k.account test)),
        omega (arith, room, k.capacity),
        k.counted zeros,
        k.sent refl,
      )

module _ {F : Type 0} where
  abbrev detection_of : Held F → List (Payload F)
  detection_of (a_detection payload) = payload ∷ []
  detection_of (a_jpeg event_id jpeg) = []

  abbrev jpeg_of : Held F → List (String × List ℕ)
  jpeg_of (a_detection payload) = []
  jpeg_of (a_jpeg event_id jpeg) = (event_id, jpeg) ∷ []

  -- The detection in the sender's hands, one in the middle of which it ended included.
  abbrev pub held_detections : Phase F → List (Payload F)
  held_detections looping = []
  held_detections waiting = []
  held_detections (taken held) = detection_of held
  held_detections (checked held) = detection_of held
  held_detections (failing held) = detection_of held
  held_detections (died held) = detection_of held

  abbrev pub held_jpegs : Phase F → List (String × List ℕ)
  held_jpegs looping = []
  held_jpegs waiting = []
  held_jpegs (taken held) = jpeg_of held
  held_jpegs (checked held) = jpeg_of held
  held_jpegs (failing held) = jpeg_of held
  held_jpegs (died held) = jpeg_of held

  abbrev pub BothKeep :
      List (Payload F) → List (String × List ℕ) → TransportWorker F → TransportWorker F → Type 0
  BothKeep d j w w' =
      Keeps Exact d (held_detections w.sender) (held_detections w'.sender) w.detections
        w'.detections
      × Keeps AtMost j (held_jpegs w.sender) (held_jpegs w'.sender) w.snapshots w'.snapshots

  -- What a step of the sender does while it holds a message.
  abbrev Holds : Held F → TransportWorker F → TransportWorker F → Type 0
  Holds held w w' =
      Keeps Exact [] (detection_of held) (held_detections w'.sender) w.detections w'.detections
      × Keeps AtMost [] (jpeg_of held) (held_jpegs w'.sender) w.snapshots w'.snapshots

  Holds-same :
      (held : Held F) (w : TransportWorker F)
      → Keeps Exact [] (detection_of held) (detection_of held) w.detections w.detections
        × Keeps AtMost [] (jpeg_of held) (jpeg_of held) w.snapshots w.snapshots
  Holds-same held w = (
    Keeps-refl Exact (detection_of held) w.detections,
    Keeps-refl AtMost (jpeg_of held) w.snapshots,
  )

  drop_message-Holds : (held : Held F) (w : TransportWorker F) → Holds held w (drop_message held w)
  drop_message-Holds (a_detection payload) w =
      (Keeps-drop Exact payload w.detections, Keeps-refl AtMost [] w.snapshots)
  drop_message-Holds (a_jpeg event_id jpeg) w =
      (Keeps-refl Exact [] w.detections, Keeps-drop AtMost (event_id, jpeg) w.snapshots)

  deliver_message-Holds :
      (held : Held F) (w : TransportWorker F) → Holds held w (deliver_message held w)
  deliver_message-Holds (a_detection payload) w =
      (Keeps-deliver Exact payload w.detections, Keeps-refl AtMost [] w.snapshots)
  deliver_message-Holds (a_jpeg event_id jpeg) w =
      (Keeps-refl Exact [] w.detections, Keeps-deliver AtMost (event_id, jpeg) w.snapshots)

  Holds-if :
      (b : Bool) (held : Held F) (w x y : TransportWorker F)
      → Holds held w x
      → Holds held w y
      → Holds held w (if b then x else y)
  Holds-if true held w x y h k = h
  Holds-if false held w x y h k = k

  connect-Holds :
      (dialled : Dialled) (held : Held F) (w : TransportWorker F)
      → Holds held w (connect dialled held w)
  connect-Holds answered held w = Holds-same held w
  connect-Holds unreachable held w = drop_message-Holds held (record w { connected = false })
  connect-Holds uncreated held w = Holds-same held w

  check_socket-Holds :
      (dialled : Dialled) (held : Held F) (w : TransportWorker F)
      → Holds held w (check_socket dialled held w)
  check_socket-Holds dialled held w =
      Holds-if w.has_socket held w _ _ (Holds-same held w) (connect-Holds dialled held w)

  sendall-Holds :
      (wire : Option (List ℕ)) (sends : Bool) (held : Held F) (w : TransportWorker F)
      → Holds held w (sendall wire sends held w)
  sendall-Holds none sends held w = Holds-same held w
  sendall-Holds (some wire) true held w = deliver_message-Holds held w
  sendall-Holds (some wire) false held w = Holds-same held w

  close_socket-same :
      (w : TransportWorker F)
      → ((close_socket w).detections ≡ w.detections)
        × ((close_socket w).snapshots ≡ w.snapshots)
        × ((close_socket w).sender ≡ w.sender)
  close_socket-same w = ground arith

  handle_failure-Holds :
      (closes : Bool) (held : Held F) (w : TransportWorker F)
      → Holds held w (handle_failure closes held w)
  handle_failure-Holds closes held w =
      let (detections, snapshots, sender) = close_socket-same w in
      Holds-if _ held w _ _ (Holds-same held w) (
        subst
            (λ d.
              Keeps Exact [] (detection_of held)
                (held_detections (drop_message held (close_socket w)).sender) d
                (drop_message held (close_socket w)).detections)
            detections (drop_message-Holds held (close_socket w)).0,
        subst
            (λ d.
              Keeps AtMost [] (jpeg_of held)
                (held_jpegs (drop_message held (close_socket w)).sender) d
                (drop_message held (close_socket w)).snapshots)
            snapshots (drop_message-Holds held (close_socket w)).1,
      )

  close_socket-BothKeep : (w : TransportWorker F) → BothKeep [] [] w (close_socket w)
  close_socket-BothKeep w =
      let (detections, snapshots, sender) = close_socket-same w in
      let first : Keeps Exact [] (held_detections w.sender)
          (held_detections (close_socket w).sender) w.detections (close_socket w).detections =
        rw detections (rw sender (Keeps-refl Exact (held_detections w.sender) w.detections)) in
      let second : Keeps AtMost [] (held_jpegs w.sender) (held_jpegs (close_socket w).sender)
          w.snapshots (close_socket w).snapshots =
        rw snapshots (rw sender (Keeps-refl AtMost (held_jpegs w.sender) w.snapshots)) in
      (first, second)

  pop_jpeg-Keeps :
      (w : TransportWorker F) (q : List (String × List ℕ))
      → w.snapshots.items ≡ q
      → Keeps Exact [] []
          (held_detections (pop_jpeg w q).sender)
          w.detections
          (pop_jpeg w q).detections
        × Keeps AtMost [] [] (held_jpegs (pop_jpeg w q).sender) w.snapshots (pop_jpeg w q).snapshots
  pop_jpeg-Keeps w [] e = (Keeps-refl Exact [] w.detections, Keeps-refl AtMost [] w.snapshots)
  pop_jpeg-Keeps w ((event_id, jpeg) ∷ rest) e =
      (Keeps-refl Exact [] w.detections, Keeps-take AtMost w.snapshots (event_id, jpeg) rest e)

  pop_detection-Keeps :
      (w : TransportWorker F) (q : List (Payload F))
      → w.detections.items ≡ q
      → Keeps Exact [] []
          (held_detections (pop_detection w q).sender)
          w.detections
          (pop_detection w q).detections
        × Keeps AtMost [] []
            (held_jpegs (pop_detection w q).sender)
            w.snapshots
            (pop_detection w q).snapshots
  pop_detection-Keeps w [] e = (Keeps-refl Exact [] w.detections, Keeps-refl AtMost [] w.snapshots)
  pop_detection-Keeps w (payload ∷ rest) e =
      (Keeps-take Exact w.detections payload rest e, Keeps-refl AtMost [] w.snapshots)

  is-at_most_one : (held : Held F) → length (detection_of held) + length (jpeg_of held) ≤ 1
  is-at_most_one (a_detection payload) = omega arith
  is-at_most_one (a_jpeg event_id jpeg) = omega arith

  held-at_most_one : (p : Phase F) → length (held_detections p) + length (held_jpegs p) ≤ 1
  held-at_most_one looping = omega arith
  held-at_most_one waiting = omega arith
  held-at_most_one (taken held) = is-at_most_one held
  held-at_most_one (checked held) = is-at_most_one held
  held-at_most_one (failing held) = is-at_most_one held
  held-at_most_one (died held) = is-at_most_one held

  create-fresh :
      (capacity snapshot_capacity : ℕ) {w : TransportWorker F}
      → create capacity snapshot_capacity ≡ some w
      → (w.detections ≡ start_lane capacity)
        × (w.snapshots ≡ start_lane snapshot_capacity)
        × (w.sender ≡ looping)
  unfolding create
  create-fresh capacity snapshot_capacity h = ground arith

module _ {F : Type 0} (encoders : Encoders F) where
  -- A step of any thread, at any point of the sender's course. The value that a snapshot's increment has
  -- read may be an old one: any up to the number of the snapshots refused so far.
  pub data Step
      : List (Payload F)
        → List (String × List ℕ)
        → TransportWorker F
        → TransportWorker F
        → Type 0 where
    by_probe :
        (payload : Payload F) (w : TransportWorker F)
        → Step (payload ∷ []) [] w (enqueue_detection payload w)
    by_snapshot :
        (seen : ℕ) (event_id : String) (jpeg : List ℕ) (w : TransportWorker F)
        → seen ≤ length w.snapshots.refused
        → Step [] ((event_id, jpeg) ∷ []) w (enqueue_jpeg seen event_id jpeg w)
    by_sender :
        (attempt : Attempt) (w : TransportWorker F) → Step [] [] w (sender_step encoders attempt w)
    by_close : (w : TransportWorker F) → Step [] [] w (close_socket w)

  -- The steps in their order, with the detections and the snapshots that are offered.
  pub data Steps
      : List (Payload F)
        → List (String × List ℕ)
        → TransportWorker F
        → TransportWorker F
        → Type 0 where
    stay : (w : TransportWorker F) → Steps [] [] w w
    step :
        (d e : List (Payload F)) (j k : List (String × List ℕ)) (u v w : TransportWorker F)
        → Step d j u v
        → Steps e k v w
        → Steps (d ++ e) (j ++ k) u w

  -- `p` is the sender's phase.
  go_on-Keeps :
      (attempt : Attempt) (w : TransportWorker F) (p : Phase F)
      → w.sender ≡ p
      → Keeps Exact []
          (held_detections p)
          (held_detections (go_on encoders attempt w p).sender)
          w.detections
          (go_on encoders attempt w p).detections
        × Keeps AtMost []
            (held_jpegs p)
            (held_jpegs (go_on encoders attempt w p).sender)
            w.snapshots
            (go_on encoders attempt w p).snapshots
  go_on-Keeps attempt w looping e = pop_jpeg-Keeps w w.snapshots.items refl
  go_on-Keeps attempt w waiting e = pop_detection-Keeps w w.detections.items refl
  go_on-Keeps attempt w (taken held) e = check_socket-Holds attempt.dialled held w
  go_on-Keeps attempt w (checked held) e =
      Holds-if w.has_socket held w _ _
        (sendall-Holds (encode_held encoders held) attempt.sends held w) (Holds-same held w)
  go_on-Keeps attempt w (failing held) e = handle_failure-Holds attempt.closes held w
  go_on-Keeps attempt w (died held) e = rw e (Holds-same held w)

  Step-BothKeep :
      {d : List (Payload F)} {j : List (String × List ℕ)} {w w' : TransportWorker F}
      → Step d j w w'
      → BothKeep d j w w'
  unfolding sender_step
  Step-BothKeep (by_probe payload w) = (
    put_item-Keeps Exact w.detections.dropped_enqueue_count payload w.detections
        (held_detections w.sender)
        (λ c. let more = length-append w.detections.refused (payload ∷ []) in omega arith),
    Keeps-refl AtMost (held_jpegs w.sender) w.snapshots,
  )
  Step-BothKeep (by_snapshot seen event_id jpeg w old) = (
    Keeps-refl Exact (held_detections w.sender) w.detections,
    put_item-Keeps AtMost seen (event_id, jpeg) w.snapshots (held_jpegs w.sender)
        (λ c. let more = length-append w.snapshots.refused ((event_id, jpeg) ∷ []) in omega arith),
  )
  Step-BothKeep (by_sender attempt w) = go_on-Keeps attempt w w.sender refl
  Step-BothKeep (by_close w) = close_socket-BothKeep w

  Steps-BothKeep :
      {d : List (Payload F)} {j : List (String × List ℕ)} {w w' : TransportWorker F}
      → Steps d j w w'
      → BothKeep d j w w'
  Steps-BothKeep (stay w) = (
    Keeps-refl Exact (held_detections w.sender) w.detections,
    Keeps-refl AtMost (held_jpegs w.sender) w.snapshots,
  )
  Steps-BothKeep (step d e j k u v w first rest) =
      let (p, q) = Step-BothKeep first in
      let (p', q') = Steps-BothKeep rest in
      (
        Keeps-trans Exact d e _ _ _ u.detections v.detections w.detections p p',
        Keeps-trans AtMost j k _ _ _ u.snapshots v.snapshots w.snapshots q q',
      )

  -- From a state as the worker starts in, after any steps of the sender, of the reader's closing of the
  -- socket and of the callers that offer the detections `d` and the snapshots `j`: each of these, as often
  -- as it was offered, waits in its queue, was refused by the full queue, was dropped by the sender, was
  -- delivered, or is the one message in the sender's hands, where it stays if the sender ended by an
  -- uncaught exception. The queues are within their capacities. The counters of refused detections and of
  -- what the sender dropped are exact; that of refused snapshots, which two threads increment without a
  -- lock, is not above their number.
  pub messages_accounted :
      (capacity snapshot_capacity : ℕ) {d : List (Payload F)} {j : List (String × List ℕ)}
      {w w' : TransportWorker F}
      → create capacity snapshot_capacity ≡ some w
      → Steps d j w w'
      → ((test : Payload F → Bool)
          → offered test w'.detections + count_rows test (held_detections w'.sender)
            ≡ count_rows test d)
        × ((test : String × List ℕ → Bool)
            → offered test w'.snapshots + count_rows test (held_jpegs w'.sender)
              ≡ count_rows test j)
        × (length (held_detections w'.sender) + length (held_jpegs w'.sender) ≤ 1)
        × (length w'.detections.items ≤ capacity)
        × (length w'.snapshots.items ≤ snapshot_capacity)
        × (w'.detections.dropped_enqueue_count ≡ length w'.detections.refused)
        × (w'.snapshots.dropped_enqueue_count ≤ length w'.snapshots.refused)
        × (w'.detections.dropped_send_count ≡ length w'.detections.lost)
        × (w'.snapshots.dropped_send_count ≡ length w'.snapshots.lost)
  messages_accounted capacity snapshot_capacity {w = w} {w' = w'} start run =
      let (p, q) = Steps-BothKeep run in
      let (detections, snapshots, sender) = create-fresh capacity snapshot_capacity start in
      let (one, in_bounds, exact, lost) =
        Keeps-start Exact _ _ _ capacity _ _ refl p detections (ap held_detections sender) in
      let (other, within, at_most, lost_jpegs) =
        Keeps-start AtMost _ _ _ snapshot_capacity _ _ (omega arith) q snapshots
          (ap held_jpegs sender) in
      (one, other, held-at_most_one w'.sender, in_bounds, within, exact, at_most, lost, lost_jpegs)
