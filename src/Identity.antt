-- ===== src/Identity.antt =====
-- The device's persisted identity: `OperationalState` and `DeviceIdentity` of
-- agent/src/weapon_detection_agent/persistence/models.py.
pub mod Repository
use edge_weapon_detection_pl.Base.{String, Bool, true, false, ◌&&◌, Option, none, some, ◌≡◌, arith}
use edge_weapon_detection_pl.Time.{DateTime}

pub data OperationalState : Type 0 where
  operational reactivation_required : OperationalState

abbrev pub is_operational : OperationalState → Bool
is_operational operational = true
is_operational reactivation_required = false

pub record DeviceIdentity : Type 0 where
  pub device_id : String
  pub shared_secret : Option String
  pub activated_at : DateTime
  pub last_activated_at : DateTime
  pub operational_state : OperationalState

abbrev pub has_secret : DeviceIdentity → Bool
has_secret identity = elim identity.shared_secret [ none ↦ false | some s ↦ true ]

-- `__post_init__` passes; otherwise it raises a ValueError.
unfoldable pub is_well_formed : DeviceIdentity → Bool
is_well_formed identity = elim identity.operational_state [
  | operational ↦ has_secret identity
  | reactivation_required ↦ elim (has_secret identity) [ true ↦ false | false ↦ true ]
]

unfoldable pub can_authenticate : DeviceIdentity → Bool
can_authenticate identity = is_operational identity.operational_state && has_secret identity

-- An identity that could be constructed authenticates exactly when it is operational.
pub can_authenticate-eq :
    (identity : DeviceIdentity)
    → is_well_formed identity ≡ true
    → can_authenticate identity ≡ is_operational identity.operational_state
unfolding is_well_formed can_authenticate
can_authenticate-eq identity h = ground arith
