-- ===== src/Base/Eq.antt =====
-- Equality tests as an interface: dictionary keys, identifiers, field names.
use Prim.Native.Nat.{ℕ}
use Prim.Native.String.{String}
use text.Mathlib.Text.{◌==◌ as string_same}
use text.Mathlib.TextEquality.{eq_iff}
use mathlib.Core.Path.{◌≡◌}
use mathlib.Core.Logic.{◌↔◌}
use mathlib.Core.Bool.{Bool, true}
use edge_weapon_detection_pl.Base.Tests.{nat_beq, nat_beq_iff}

-- What Python's `__eq__` gives for the values of a type: a test, and that it decides identity.
pub record Equality {ℓ} (K : Type ℓ) : Type ℓ where
  pub same : K → K → Bool
  pub same_iff : (j k : K) → (same j k ≡ true) ↔ (j ≡ k)

instance abbrev pub string_eq : Equality String
string_eq = record { same = string_same; same_iff = eq_iff }

instance abbrev pub nat_eq : Equality ℕ
nat_eq = record { same = nat_beq; same_iff = nat_beq_iff }

module _ {ℓ} {K : Type ℓ} ⦃keys : Equality K⦄ where
  infix 50 ◌==◌
  abbrev pub ◌==◌ : K → K → Bool
  j == k = keys.same j k

  pub eq_of_beq : (j k : K) → (j == k) ≡ true → j ≡ k
  eq_of_beq j k h = (keys.same_iff j k).0 h
