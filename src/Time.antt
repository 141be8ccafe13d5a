-- ===== src/Time.antt =====
-- `datetime` values, as far as the program uses them: whether they carry a time zone, and the
-- instant in microseconds, by which UTC timestamps compare (their ISO-8601 texts do so too).
use edge_weapon_detection_pl.Base.{ℕ, Bool}

pub record DateTime : Type 0 where
  pub is_aware : Bool
  pub instant : ℕ
