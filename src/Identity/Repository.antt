-- ===== src/Identity/Repository.antt =====
-- The stored identity: agent/src/weapon_detection_agent/persistence/device_identity_repository.py.
-- The table holds at most one row, by its guard; a method that raises leaves it as it was.
use edge_weapon_detection_pl.Base.{
  ◌≡◌, refl, arith, String, Bool, true, ◌&&◌, ◌||◌, not, Option, none, some, List, [], ◌∷◌,
  if◌then◌else◌, Bool-cases, inl, inr,
}
use edge_weapon_detection_pl.Base.Eq.{◌==◌, string_eq}
use edge_weapon_detection_pl.Time.{DateTime}
use edge_weapon_detection_pl.Identity.{
  DeviceIdentity, operational, reactivation_required, is_well_formed,
}

abbrev pub Stored : Type 0
Stored = Option DeviceIdentity

pub data IdentityError : Type 0 where
  naive_time identity_already_exists invalid_identity_state integrity_failed storage_failed :
      IdentityError

-- A secret that is empty is stored as NULL, since it counts as false.
abbrev pub secret_or_null : Option String → Option String
secret_or_null none = none
secret_or_null (some s) = if s == "" then none else some s

abbrev pub stored_row : DeviceIdentity → DeviceIdentity
stored_row identity = record identity { shared_secret = secret_or_null identity.shared_secret }

-- `fault` says that the database fails; the schema's CHECK refuses a row that is not well-formed.
unfoldable pub store : Stored → DeviceIdentity → Bool → Stored × Option IdentityError
store table identity fault =
    if not (identity.activated_at.is_aware && identity.last_activated_at.is_aware)
    then (table, some naive_time)
    else elim table [
      | some existing ↦ (some existing, some identity_already_exists)
      | none ↦
          if fault
          then (none, some storage_failed)
          else if is_well_formed (stored_row identity)
          then (some (stored_row identity), none)
          else (none, some integrity_failed)
    ]

unfoldable pub replace_shared_secret :
    Stored → String → DateTime → Bool → Stored × Option IdentityError
replace_shared_secret table secret last_activated_at fault =
    if not last_activated_at.is_aware
    then (table, some naive_time)
    else if fault
    then (table, some storage_failed)
    else elim table [
      | none ↦ (none, some invalid_identity_state)
      | some row ↦ (
        some (record row {
          shared_secret = some secret;
          last_activated_at = last_activated_at;
          operational_state = operational;
        }),
        none,
      )
    ]

unfoldable pub mark_reactivation_required : Stored → Bool → Stored × Option IdentityError
mark_reactivation_required table fault =
    if fault then (table, some storage_failed) else elim table [
      | none ↦ (none, some invalid_identity_state)
      | some row ↦ (
        some (record row { shared_secret = none; operational_state = reactivation_required }),
        none,
      )
    ]

-- `none` is the InvalidIdentityStateError of a row that the constructor refuses.
unfoldable pub load : Stored → Option (Option DeviceIdentity)
load none = some none
load (some row) = if is_well_formed row then some (some row) else none

-- A call of the repository that writes.
pub data Call : Type 0 where
  activation : DeviceIdentity → Bool → Call
  reactivation : String → DateTime → Bool → Call
  revocation : Bool → Call

unfoldable pub call : Stored → Call → Stored
call table (activation identity fault) = (store table identity fault).0
call table (reactivation secret at fault) = (replace_shared_secret table secret at fault).0
call table (revocation fault) = (mark_reactivation_required table fault).0

unfoldable pub call_all : Stored → List Call → Stored
call_all table [] = table
call_all table (c ∷ cs) = call_all (call table c) cs

-- A stored identity of this device, activated at this time, that can be loaded.
pub record IsIdentityOf (device_id : String) (activated_at : DateTime) (table : Stored)
    : Type 0 where
  pub row : DeviceIdentity
  pub found : table ≡ some row
  pub loads : load table ≡ some (some row)
  pub same_device : row.device_id ≡ device_id
  pub same_time : row.activated_at ≡ activated_at

kept :
    (device_id : String) (activated_at : DateTime) (row : DeviceIdentity)
    → is_well_formed row ≡ true
    → row.device_id ≡ device_id
    → row.activated_at ≡ activated_at
    → IsIdentityOf device_id activated_at (some row)
unfolding load
kept device_id activated_at row formed same_device same_time = record {
  row = row;
  found = refl;
  loads = ground arith;
  same_device = same_device;
  same_time = same_time;
}

call-IsIdentityOf :
    (device_id : String) (activated_at : DateTime) (row : DeviceIdentity) (c : Call)
    → is_well_formed row ≡ true
    → row.device_id ≡ device_id
    → row.activated_at ≡ activated_at
    → (row' : DeviceIdentity) × (call (some row) c ≡ some row')
      × (is_well_formed row' ≡ true)
      × (row'.device_id ≡ device_id)
      × (row'.activated_at ≡ activated_at)
unfolding call store replace_shared_secret mark_reactivation_required is_well_formed
call-IsIdentityOf device_id activated_at row (activation identity fault) formed d t =
    (row, ground arith, formed, d, t)
call-IsIdentityOf device_id activated_at row (reactivation secret at fault) formed d t =
    elim (Bool-cases (not at.is_aware || fault)) [
      | inl refused ↦ (row, ground arith, formed, d, t)
      | inr works ↦ (
        record row {
          shared_secret = some secret;
          last_activated_at = at;
          operational_state = operational;
        },
        ground arith,
        refl,
        d,
        t,
      )
    ]
call-IsIdentityOf device_id activated_at row (revocation fault) formed d t =
    elim (Bool-cases fault) [
      | inl refused ↦ (row, ground arith, formed, d, t)
      | inr works ↦ (
        record row { shared_secret = none; operational_state = reactivation_required },
        ground arith,
        refl,
        d,
        t,
      )
    ]

rows-IsIdentityOf :
    (device_id : String) (activated_at : DateTime) (row : DeviceIdentity) (cs : List Call)
    → is_well_formed row ≡ true
    → row.device_id ≡ device_id
    → row.activated_at ≡ activated_at
    → IsIdentityOf device_id activated_at (call_all (some row) cs)
unfolding call_all
rows-IsIdentityOf device_id activated_at row [] formed d t =
    kept device_id activated_at row formed d t
rows-IsIdentityOf device_id activated_at row (c ∷ cs) formed d t =
    let (row', next, formed', d', t') = call-IsIdentityOf device_id activated_at row c formed d t in
    rw next (rows-IsIdentityOf device_id activated_at row' cs formed' d' t')

-- Once an identity that can be loaded is stored, it can be loaded after any further calls, failing or
-- not, under the same id and with the time of its first activation.
pub call_all-IsIdentityOf :
    (row : DeviceIdentity) (cs : List Call)
    → load (some row) ≡ some (some row)
    → IsIdentityOf row.device_id row.activated_at (call_all (some row) cs)
unfolding load
call_all-IsIdentityOf row cs h =
    rows-IsIdentityOf row.device_id row.activated_at row cs (ground arith) refl refl
