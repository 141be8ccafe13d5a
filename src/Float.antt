-- ===== src/Float.antt =====
-- Python's `float`, which the program does not implement: its operations, and what is relied on.
use edge_weapon_detection_pl.Base.{ℕ, ◌^◌, ◌<◌, Bool, true, false, Option, some, ◌≡◌}
use edge_weapon_detection_pl.Base.Int.{ℤ, pos}

pub record Float : Type 1 where
  pub F : Type 0
  -- x < y and x <= y
  pub lt : F → F → Bool
  pub le : F → F → Bool
  -- n < x for an int n, which Python compares exactly
  pub int_lt : ℤ → F → Bool
  pub add : F → F → F
  pub sub : F → F → F
  -- float(n); `none` is its OverflowError
  pub of_int : ℤ → Option F
  -- math.isfinite(x)
  pub is_finite : F → Bool
  -- math.ceil(x); `none` is its OverflowError or ValueError
  pub ceil : F → Option ℤ
  pub zero_float : F
  pub one_float : F

module _ (float : Float) where
  open float use {F, lt, int_lt, add, sub, of_int, zero_float}

  -- What IEEE 754 arithmetic, rounding to the nearest and ties to even, gives for frame sizes that are
  -- exact with a bit to spare.
  pub record FloatLaws : Type 0 where
    pub lt_irrefl : (x : F) → lt x x ≡ false
    pub lt_asymm : (x y : F) → lt x y ≡ true → lt y x ≡ false
    -- a coordinate that is no larger than the frame's size leaves room that is not negative
    pub room_nonneg :
        (n : ℕ) (size x : F)
        → n < 2 ^ 52
        → of_int (pos n) ≡ some size
        → lt size x ≡ false
        → lt (sub size x) zero_float ≡ false
    -- and what fits into that room does not pass the frame's edge, from a coordinate that is not negative
    pub room_fits :
        (n : ℕ) (size x w : F)
        → n < 2 ^ 52
        → of_int (pos n) ≡ some size
        → lt x zero_float ≡ false
        → lt size x ≡ false
        → lt (sub size x) w ≡ false
        → int_lt (pos n) (add x w) ≡ false
    -- a size is not negative
    pub size_nonneg : (n : ℕ) (size : F) → of_int (pos n) ≡ some size → lt size zero_float ≡ false
