-- ===== src/Bridge/Rendezvous/Orders.antt =====
-- The JPEG and the acknowledgement of a detection may arrive in either order.
use edge_weapon_detection_pl.Base.{
  ℕ, ◌<◌, ◌≤◌, ◌≡◌, refl, sym, ap, ◌∙◌, subst, arith, String, true, false, none, some, List, [],
  ◌∷◌, keep, All,
}
use edge_weapon_detection_pl.Base.Int.{int_eq}
use edge_weapon_detection_pl.Base.Eq.{string_eq}
use edge_weapon_detection_pl.Base.Dict.{Dict, get, get-put, pop-put, All-put, All-get}
use edge_weapon_detection_pl.Bridge.Rendezvous.{
  frame_eq, Candidate, SnapshotRendezvous, Ack, remove, remove_all, candidates, is_expired, expire,
  assign, lookup, completion, settle, try_complete, take_jpeg, submit_jpeg, take_ack, submit_ack,
}

abbrev Outlives : ℕ → String × Candidate → Type 0
Outlives t entry = t < entry.1.expires_at

-- No candidate expires by the time `t`.
abbrev pub IsQuiet : ℕ → SnapshotRendezvous → Type 0
IsQuiet t s = All (Outlives t) s.by_message

keep-quiet :
    (now t : ℕ) (d : Dict String Candidate)
    → now ≤ t
    → All (Outlives t) d
    → keep (is_expired now) (candidates d) ≡ []
keep-quiet now t [] le quiet = refl
keep-quiet now t ((m, c) ∷ d) le quiet = ground (arith, keep-quiet now t d le quiet.1, quiet.0)

expire-quiet : (now t : ℕ) (s : SnapshotRendezvous) → now ≤ t → IsQuiet t s → expire now s ≡ s
unfolding expire remove_all
expire-quiet now t s le quiet = rw (keep-quiet now t s.by_message le quiet) refl

-- A candidate that is retained, found by its frame, and waits for both halves.
pub record Awaits (s : SnapshotRendezvous) (m : String) (c : Candidate) : Type 0 where
  pub by_frame : get s.by_frame (c.source_id, c.frame_number) ≡ some m
  pub by_message : get s.by_message m ≡ some c
  pub own_key : c.message_id ≡ m
  pub is_open : c.completed ≡ false
  pub unanswered : c.ack_outcome ≡ none
  pub without_jpeg : c.jpeg_bytes ≡ none

abbrev pub acceptance : String → Ack
acceptance event_id = record {
  outcome = some "accepted";
  event_id = some event_id;
  snapshot_required = true;
}

abbrev pub with_jpeg : List ℕ → Candidate → Candidate
with_jpeg bytes c = record c { jpeg_bytes = some bytes }

abbrev pub with_ack : String → Candidate → Candidate
with_ack event_id c = record c {
  ack_outcome = some "accepted";
  event_id = some event_id;
  snapshot_required = true;
}

take_jpeg-open :
    (bytes : List ℕ) (s : SnapshotRendezvous) (m : String) (c : Candidate)
    → c.completed ≡ false
    → take_jpeg bytes s (some (m, c))
      ≡ settle m (with_jpeg bytes c) (completion (with_jpeg bytes c)) s
unfolding take_jpeg try_complete
take_jpeg-open bytes s m c h = simp h refl

take_ack-open :
    (event_id : String) (s : SnapshotRendezvous) (m : String) (c : Candidate)
    → c.completed ≡ false
    → take_ack (acceptance event_id) s (some (m, c))
      ≡ settle m (with_ack event_id c) (completion (with_ack event_id c)) s
unfolding take_ack try_complete
take_ack-open event_id s m c h = simp h refl

lookup-assign :
    (s : SnapshotRendezvous) (m : String) (c : Candidate)
    → lookup (assign m c s) (some m) ≡ some (m, c)
lookup-assign s m c = ground (arith, get-put s.by_message m c m, string_eq.same_iff m m)

lookup-some :
    (s : SnapshotRendezvous) (m : String) (c : Candidate)
    → get s.by_message m ≡ some c
    → lookup s (some m) ≡ some (m, c)
lookup-some s m c h = simp h refl

remove-assign :
    (s : SnapshotRendezvous) (m : String) (c c' : Candidate)
    → c.message_id ≡ m
    → remove c (assign m c' s) ≡ remove c s
remove-assign s m c c' own =
    simp own (ap (λ d. record (remove c s) { by_message = d }) (pop-put s.by_message m c'))

completion-both :
    (event_id : String) (bytes : List ℕ) (c : Candidate)
    → c.completed ≡ false
    → completion (with_ack event_id (with_jpeg bytes c)) ≡ some (event_id, bytes)
unfolding completion
completion-both event_id bytes c h = simp h refl

completion-unanswered : (c : Candidate) → c.ack_outcome ≡ none → completion c ≡ none
unfolding completion
completion-unanswered c h = ground arith

completion-without_jpeg : (c : Candidate) → c.jpeg_bytes ≡ none → completion c ≡ none
unfolding completion
completion-without_jpeg c h = ground arith

submit_jpeg-settle :
    (s : SnapshotRendezvous) (m : String) (c : Candidate) (bytes : List ℕ) (now : ℕ)
    → expire now s ≡ s
    → get s.by_frame (c.source_id, c.frame_number) ≡ some m
    → get s.by_message m ≡ some c
    → c.completed ≡ false
    → submit_jpeg s c.source_id c.frame_number bytes now
      ≡ settle m (with_jpeg bytes c) (completion (with_jpeg bytes c)) s
unfolding submit_jpeg
submit_jpeg-settle s m c bytes now quiet frame found open_ =
    subst
      (λ live.
        take_jpeg bytes live (lookup live (get live.by_frame (c.source_id, c.frame_number)))
        ≡ settle m (with_jpeg bytes c) (completion (with_jpeg bytes c)) s)
      (sym quiet) (rw frame (rw found (take_jpeg-open bytes s m c open_)))

submit_ack-settle :
    (s : SnapshotRendezvous) (m : String) (c : Candidate) (event_id : String) (now : ℕ)
    → expire now s ≡ s
    → get s.by_message m ≡ some c
    → c.completed ≡ false
    → submit_ack s m (acceptance event_id) now
      ≡ settle m (with_ack event_id c) (completion (with_ack event_id c)) s
unfolding submit_ack
submit_ack-settle s m c event_id now quiet found open_ =
    subst
      (λ live.
        take_ack (acceptance event_id) live (lookup live (some m))
        ≡ settle m (with_ack event_id c) (completion (with_ack event_id c)) s)
      (sym quiet) (rw found (take_ack-open event_id s m c open_))

get-assign :
    (s : SnapshotRendezvous) (m : String) (c : Candidate) → get (assign m c s).by_message m ≡ some c
get-assign s m c = ground (arith, get-put s.by_message m c m, string_eq.same_iff m m)

module _ (s : SnapshotRendezvous) (m : String) (c : Candidate) (event_id : String) (bytes : List ℕ)
    (t : ℕ) (waits : Awaits s m c) (quiet : IsQuiet t s) where
  assign-quiet :
      (c' : Candidate) (now : ℕ)
      → c'.expires_at ≡ c.expires_at
      → now ≤ t
      → expire now (assign m c' s) ≡ assign m c' s
  assign-quiet c' now same le =
      let alive = All-get (Outlives t) s.by_message m {v = c} waits.by_message quiet in
      expire-quiet now t (assign m c' s) le
        (All-put (Outlives t) s.by_message m c' (omega arith) quiet)

  submit_jpeg-Awaits :
      (now : ℕ)
      → now ≤ t
      → submit_jpeg s c.source_id c.frame_number bytes now ≡ (assign m (with_jpeg bytes c) s, none)
  submit_jpeg-Awaits now le =
      submit_jpeg-settle s m c bytes now (expire-quiet now t s le quiet) waits.by_frame
        waits.by_message waits.is_open
      ∙ rw (completion-unanswered (with_jpeg bytes c) waits.unanswered) refl

  submit_ack-Awaits :
      (now : ℕ)
      → now ≤ t
      → submit_ack s m (acceptance event_id) now ≡ (assign m (with_ack event_id c) s, none)
  submit_ack-Awaits now le =
      submit_ack-settle s m c event_id now (expire-quiet now t s le quiet) waits.by_message
        waits.is_open
      ∙ rw (completion-without_jpeg (with_ack event_id c) waits.without_jpeg) refl

  ack_after_jpeg :
      (now : ℕ)
      → now ≤ t
      → submit_ack (assign m (with_jpeg bytes c) s) m (acceptance event_id) now
        ≡ (remove c s, some (event_id, bytes))
  ack_after_jpeg now le =
      submit_ack-settle (assign m (with_jpeg bytes c) s) m (with_jpeg bytes c) event_id now
        (assign-quiet (with_jpeg bytes c) now refl le) (get-assign s m (with_jpeg bytes c))
        waits.is_open
      ∙ rw (completion-both event_id bytes c waits.is_open) (
          ap (λ r. (r, some (event_id, bytes)))
            (remove-assign s m c (with_jpeg bytes c) waits.own_key))

  jpeg_after_ack :
      (now : ℕ)
      → now ≤ t
      → submit_jpeg (assign m (with_ack event_id c) s) c.source_id c.frame_number bytes now
        ≡ (remove c s, some (event_id, bytes))
  jpeg_after_ack now le =
      submit_jpeg-settle (assign m (with_ack event_id c) s) m (with_ack event_id c) bytes now
        (assign-quiet (with_ack event_id c) now refl le) waits.by_frame
        (get-assign s m (with_ack event_id c)) waits.is_open
      ∙ rw (completion-both event_id bytes c waits.is_open) (
          ap (λ r. (r, some (event_id, bytes)))
            (remove-assign s m c (with_ack event_id c) waits.own_key))

-- A candidate that waits for both halves, in a rendezvous where nothing expires by the time `t`: of
-- the JPEG and the acceptance, the first sends nothing, and the second sends the event's identifier
-- with the JPEG, once. The order makes no difference to what is sent, nor to the state afterwards.
pub submit_jpeg-submit_ack :
    (s : SnapshotRendezvous) (m : String) (c : Candidate) (event_id : String) (bytes : List ℕ)
    (t first second : ℕ)
    → Awaits s m c
    → IsQuiet t s
    → first ≤ t
    → second ≤ t
    → let with_jpeg_first = submit_jpeg s c.source_id c.frame_number bytes first in
      let with_ack_first = submit_ack s m (acceptance event_id) first in
      (with_jpeg_first.1 ≡ none)
      × (with_ack_first.1 ≡ none)
      × (submit_ack with_jpeg_first.0 m (acceptance event_id) second
          ≡ submit_jpeg with_ack_first.0 c.source_id c.frame_number bytes second)
      × ((submit_ack with_jpeg_first.0 m (acceptance event_id) second).1 ≡ some (event_id, bytes))
submit_jpeg-submit_ack s m c event_id bytes t first second waits quiet le le' =
    let jpeg_first = submit_jpeg-Awaits s m c event_id bytes t waits quiet first le in
    let ack_first = submit_ack-Awaits s m c event_id bytes t waits quiet first le in
    let last_ack = ack_after_jpeg s m c event_id bytes t waits quiet second le' in
    let last_jpeg = jpeg_after_ack s m c event_id bytes t waits quiet second le' in
    rw jpeg_first (rw ack_first (refl, refl, last_ack ∙ sym last_jpeg, ap (λ r. r.1) last_ack))
