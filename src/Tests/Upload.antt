-- ===== src/Tests/Upload.antt =====
-- Snapshots, identities, retries and answers at concrete inputs.
use edge_weapon_detection_pl.Base.{
  ℕ, ◌≡◌, ◌≤◌, ◌*◌, refl, arith, true, false, some, none, List, [], ◌∷◌, String, Option,
  if◌then◌else◌,
}
use edge_weapon_detection_pl.Base.Eq.{◌==◌, string_eq, nat_eq}
use edge_weapon_detection_pl.Base.Dict.{get}
use edge_weapon_detection_pl.Time.{DateTime}
use edge_weapon_detection_pl.SnapshotOutbox.{SnapshotOutboxRecord, Outbox, captured_row, get_record}
use edge_weapon_detection_pl.SnapshotOutbox.Lifecycle.{
  associate, upload, failure, cancel, call_all, Evolves, call_all-Evolves,
}
use edge_weapon_detection_pl.Identity.{DeviceIdentity, operational, is_well_formed}
use edge_weapon_detection_pl.Identity.Repository.{
  Call as IdentityCall, activation, reactivation, revocation, load, call_all as identity_call_all,
  IsIdentityOf, call_all-IsIdentityOf,
}
use edge_weapon_detection_pl.Backoff.{
  BackoffConfig, dead, run_iterations, running, sent, idle, sleep_backoff, jittered,
}
use edge_weapon_detection_pl.Backoff.Bounds.{doubling, backoff_doubles}
use edge_weapon_detection_pl.Backoff.Outage.{outage, outage_kills_worker}
use edge_weapon_detection_pl.Json.{Value, Fields}
use edge_weapon_detection_pl.Sync.Client.{parse_results}
use edge_weapon_detection_pl.Sync.Client.Verdict.{standing, parse_results-standing}

abbrev at_time : ℕ → DateTime
at_time n = record { is_aware = true; instant = n }

abbrev snapshot : SnapshotOutboxRecord
snapshot = captured_row 1 "spool/1.jpg" "image/jpeg" 2048 "ab" (at_time 50)

abbrev ready_snapshot : SnapshotOutboxRecord
ready_snapshot = record snapshot { backend_alert_id = some "alert" }

abbrev table : Outbox
table = captured_row 2 "spool/2.jpg" "image/jpeg" 1024 "cd" (at_time 40) ∷ ready_snapshot ∷ []

call_all-Evolves_example :
    (r' : SnapshotOutboxRecord) × (get_record
        (call_all table (
          associate 1 "other"
          ∷ failure 1 (at_time 60) "timeout"
          ∷ upload 1 (at_time 70)
          ∷ cancel 1
          ∷ []))
        1
      ≡ some r')
    × Evolves ready_snapshot r'
unfolding get_record
call_all-Evolves_example =
    call_all-Evolves table
      (associate 1 "other"
        ∷ failure 1 (at_time 60) "timeout"
        ∷ upload 1 (at_time 70)
        ∷ cancel 1
        ∷ [])
      1 ready_snapshot refl

abbrev identity : DeviceIdentity
identity = record {
  device_id = "d";
  shared_secret = some "s";
  activated_at = at_time 1;
  last_activated_at = at_time 2;
  operational_state = operational;
}

-- One second, and a minute, in milliseconds.
abbrev backoff_config : BackoffConfig
backoff_config = record {
  initial_backoff = 1000;
  max_backoff = 60000;
  initial_positive = omega arith;
  cap_large = omega arith;
}

backoff_doubles_example :
    (run_iterations backoff_config (running 9) (sent ∷ outage 5) ≡ running 5)
    × (sleep_backoff backoff_config 5 ≡ some (doubling backoff_config 5, 6))
    × (doubling backoff_config 5 * 4 ≤ jittered (doubling backoff_config 5) 3 4)
    × (jittered (doubling backoff_config 5) 3 4 ≤ doubling backoff_config 5 * (2 * 4))
backoff_doubles_example = backoff_doubles backoff_config 9 5 3 4 (omega arith) (omega arith)

outage_kills_worker_example :
    (run_iterations backoff_config (running 0) (outage 1025) ≡ dead)
    × (run_iterations backoff_config dead (sent ∷ idle ∷ []) ≡ dead)
outage_kills_worker_example = outage_kills_worker backoff_config 1025 (sent ∷ idle ∷ [])

abbrev uuid_of : String → Option ℕ
uuid_of s = if s == "one" then some 1 else if s == "two" then some 2 else none

abbrev item : String → String → Value ℕ
item id outcome =
    Value.obj (
      Fields.field "eventId" (Value.str id) (Fields.field "outcome" (Value.str outcome) Fields.end))

-- The second id is named twice, and the third item names no id.
abbrev answer : List (Value ℕ)
answer =
    item "one" "duplicate"
    ∷ item "two" "accepted"
    ∷ item "three" "accepted"
    ∷ item "two" "rejected"
    ∷ []

parse_results-standing_example :
    standing (parse_results uuid_of answer) 1
    ≡ record { accepted = false; duplicate = true; rejected = false; quota_exceeded = false }
unfolding get
parse_results-standing_example = parse_results-standing uuid_of answer 1

-- A revocation, an attempt to activate anew, and a reactivation.
abbrev identity_calls : List IdentityCall
identity_calls =
    revocation false ∷ activation identity false ∷ reactivation "t" (at_time 9) false ∷ []

call_all-IsIdentityOf_example :
    IsIdentityOf "d" (at_time 1) (identity_call_all (some identity) identity_calls)
unfolding load is_well_formed
call_all-IsIdentityOf_example = call_all-IsIdentityOf identity identity_calls refl
