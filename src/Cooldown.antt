-- ===== src/Cooldown.antt =====
-- Duplicate suppression: agent/src/weapon_detection_agent/detection/cooldown.py. A monotonic clock's
-- readings and the cooldown are whole ticks of one unit, so that `now - last < cooldown` is exact.
pub mod Window
use edge_weapon_detection_pl.Base.{
  ℕ, ◌+◌, String, Bool, true, false, ◌&&◌, ◌||◌, Option, none, some, List, [], ◌∷◌, ◌≡◌, ◌↔◌, arith,
  ltb, if◌then◌else◌, ◌>>=◌,
}
use edge_weapon_detection_pl.Base.Eq.{Equality, ◌==◌, string_eq}
use edge_weapon_detection_pl.Base.Dict.{Dict, get, put}
use edge_weapon_detection_pl.Base.Text.{is_blank}

-- (device_id, camera_id, class_name)
abbrev pub CooldownKey : Type 0
CooldownKey = String × String × String

abbrev pub key_beq : CooldownKey → CooldownKey → Bool
key_beq a b = a.0 == b.0 && a.1 == b.1 && a.2 == b.2

pub key_beq_iff : (a b : CooldownKey) → (key_beq a b ≡ true) ↔ (a ≡ b)
key_beq_iff a b =
    ground
      (arith, string_eq.same_iff a.0 b.0, string_eq.same_iff a.1 b.1, string_eq.same_iff a.2 b.2)

instance abbrev pub key_eq : Equality CooldownKey
key_eq = record { same = key_beq; same_iff = key_beq_iff }

pub data CooldownDecision : Type 0 where
  accept suppress : CooldownDecision

-- `_Identity(...).key()`; `none` is the ValueError for a blank part
unfoldable pub identity_key : String → String → String → Option CooldownKey
unfolding is_blank
identity_key device_id camera_id class_name =
    if is_blank device_id || is_blank camera_id || is_blank class_name
    then none
    else some (device_id, camera_id, class_name)

pub record DetectionCooldownTracker : Type 0 where
  pub cooldown_seconds : ℕ
  pub last_accepted_at : Dict CooldownKey ℕ

abbrev pub start_tracker : ℕ → DetectionCooldownTracker
start_tracker cooldown = record { cooldown_seconds = cooldown; last_accepted_at = [] }

unfoldable pub within_window : ℕ → Option ℕ → ℕ → CooldownDecision
within_window cooldown none now = accept
within_window cooldown (some last) now = if ltb now (last + cooldown) then suppress else accept

-- `now` is the clock reading that the call takes.
unfoldable pub decide :
    DetectionCooldownTracker → String → String → String → ℕ → Option CooldownDecision
unfolding within_window
decide t device_id camera_id class_name now = do
  key ← identity_key device_id camera_id class_name
  some (within_window t.cooldown_seconds (get t.last_accepted_at key) now)

unfoldable pub commit :
    DetectionCooldownTracker → String → String → String → ℕ → Option DetectionCooldownTracker
commit t device_id camera_id class_name now = do
  key ← identity_key device_id camera_id class_name
  some (record t { last_accepted_at = put t.last_accepted_at key now })

-- `decided_at` and `committed_at` are the two readings of the clock.
unfoldable pub evaluate :
    DetectionCooldownTracker
    → String
    → String
    → String
    → ℕ
    → ℕ
    → Option (CooldownDecision × DetectionCooldownTracker)
unfolding decide commit
evaluate t device_id camera_id class_name decided_at committed_at = do
  decision ← decide t device_id camera_id class_name decided_at
  elim decision [
    | accept ↦ do t' ← commit t device_id camera_id class_name committed_at; some (accept, t')
    | suppress ↦ some (suppress, t)
  ]
