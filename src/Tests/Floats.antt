-- ===== src/Tests/Floats.antt =====
-- Floats for the tests: numbers of thousandths that are not negative, exact for every integer.
use edge_weapon_detection_pl.Base.{
  ℕ, ◌+◌, ◌-◌, ◌*◌, ◌/◌, ◌^◌, Bool, true, Option, some, none, ltb, leb, arith, if◌then◌else◌,
}
use edge_weapon_detection_pl.Base.Int.{ℤ, pos, negsuc}
use edge_weapon_detection_pl.Float.{Float, FloatLaws}

abbrev pub thousandths_of : ℤ → Option ℕ
thousandths_of (pos n) = if ltb n (2 ^ 1024) then some (n * 1000) else none
thousandths_of (negsuc n) = none

abbrev pub int_below : ℤ → ℕ → Bool
int_below (pos n) x = ltb (n * 1000) x
int_below (negsuc n) x = true

abbrev pub thousandths : Float
thousandths = record {
  F = ℕ;
  lt = ltb;
  le = leb;
  int_lt = int_below;
  add = λ x y. x + y;
  sub = λ x y. x - y;
  of_int = thousandths_of;
  is_finite = λ x. true;
  ceil = λ x. some (pos ((x + 999) / 1000));
  zero_float = 0;
  one_float = 1000;
}

pub thousandths_laws : FloatLaws thousandths
thousandths_laws = record {
  lt_irrefl = λ x. ground arith;
  lt_asymm = λ x y h. ground arith;
  room_nonneg = λ n size x small e h. ground arith;
  room_fits = λ n size x w small e p h k. ground arith;
  size_nonneg = λ n size e. ground arith;
}
