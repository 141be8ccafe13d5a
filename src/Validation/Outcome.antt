-- ===== src/Validation/Outcome.antt =====
-- What a validation step does: it passes a value on, rejects the payload for a reason, or raises.
use edge_weapon_detection_pl.Base.{String, Bool, true, false, Option, none, some, ◌≡◌, refl}

pub data DetectionRejectionReason : Type 0 where
  malformed_field non_finite_value negative_value unknown_class : DetectionRejectionReason
  confidence_out_of_range confidence_below_threshold : DetectionRejectionReason
  unresolved_camera_source : DetectionRejectionReason

pub data Exception : Type 0 where
  value_error overflow_error : Exception

pub data Check {ℓ} (A : Type ℓ) : Type ℓ where
  pass : A → Check A
  reject : DetectionRejectionReason → String → Check A
  raise : Exception → Check A

infixl 5 ◌>>=◌ ◌>>◌
abbrev pub ◌>>=◌ {ℓ κ} : {A : Type ℓ} {B : Type κ} → Check A → (A → Check B) → Check B
pass a >>= f = f a
reject reason field >>= f = reject reason field
raise e >>= f = raise e

abbrev pub ◌>>◌ {ℓ} : {B : Type ℓ} → Check (Unit {0}) → Check B → Check B
m >> k = m >>= λ _. k

abbrev pub reject_if : Bool → DetectionRejectionReason → String → Check (Unit {0})
reject_if true reason name = reject reason name
reject_if false reason name = pass tt

abbrev pub from_option {ℓ} : {A : Type ℓ} → Exception → Option A → Check A
from_option e none = raise e
from_option e (some a) = pass a

-- To split on what a step did and keep the equation.
pub data View {ℓ} {A : Type ℓ} (m : Check A) : Type ℓ where
  passed : (a : A) → m ≡ pass a → View m
  rejected : (reason : DetectionRejectionReason) (name : String) → m ≡ reject reason name → View m
  raised : (e : Exception) → m ≡ raise e → View m

pub view {ℓ} : {A : Type ℓ} (m : Check A) → View m
view (pass a) = passed a refl
view (reject reason name) = rejected reason name refl
view (raise e) = raised e refl
