-- ===== src/Protocol/Bytes.antt =====
-- The big-endian digits of a number give the number back.
use native.Mathlib.Nat.{pow-suc}
use edge_weapon_detection_pl.Base.{
  ℕ, zero, suc, ◌+◌, ◌*◌, ◌/◌, ◌%◌, ◌^◌, ◌<◌, List, [], ◌∷◌, ◌++◌, ◌≡◌, refl, arith, length,
  length-append,
}
use edge_weapon_detection_pl.Protocol.{big_endian, from_bytes_onto, from_bytes}

pub length-big_endian : (width n : ℕ) → length (big_endian width n) ≡ width
unfolding big_endian
length-big_endian zero n = refl
length-big_endian (suc width) n = omega (
  arith,
  length-append (big_endian width (n / 256)) ((n % 256) ∷ []),
  length-big_endian width (n / 256),
)

from_bytes_onto-snoc :
    (acc : ℕ) (xs : List ℕ) (b : ℕ)
    → from_bytes_onto acc (xs ++ b ∷ []) ≡ from_bytes_onto acc xs * 256 + b
unfolding from_bytes_onto
from_bytes_onto-snoc acc [] b = refl
from_bytes_onto-snoc acc (x ∷ xs) b = from_bytes_onto-snoc (acc * 256 + x) xs b

pub from_bytes-big_endian : (width n : ℕ) → n < 256 ^ width → from_bytes (big_endian width n) ≡ n
unfolding big_endian from_bytes
from_bytes-big_endian zero n h = omega arith
from_bytes-big_endian (suc width) n h =
    rw (from_bytes_onto-snoc 0 (big_endian width (n / 256)) (n % 256)) (
      omega
        (arith, from_bytes-big_endian width (n / 256) (let h' = pow-suc 256 width in omega arith)))
