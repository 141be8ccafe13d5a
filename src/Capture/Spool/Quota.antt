-- ===== src/Capture/Spool/Quota.antt =====
-- The spool never grows beyond its quota.
use edge_weapon_detection_pl.Base.{
  ℕ, ◌+◌, ◌≤◌, ◌≡◌, arith, String, false, Option, none, some, List, [], ◌∷◌, length, ltb,
  Bool-cases, inl, inr,
}
use edge_weapon_detection_pl.Base.Eq.{string_eq}
use edge_weapon_detection_pl.Base.Dict.{put}
use edge_weapon_detection_pl.Capture.Jpeg.{SnapshotRejection}
use edge_weapon_detection_pl.Capture.Spool.{
  Spool, spool_usage_bytes, CaptureConfig, Platform, CaptureState, SnapshotItem, capture_for,
  after_validation, write_and_insert, process_snapshot,
}

usage-put :
    (spool : Spool) (path : String) (size : ℕ)
    → spool_usage_bytes (put spool path size) ≤ spool_usage_bytes spool + size
unfolding spool_usage_bytes put
usage-put [] path size = omega arith
usage-put ((p, n) ∷ spool) path size = ground (arith, usage-put spool path size)

abbrev pub KeepsQuota : CaptureConfig → CaptureState → Type 0
KeepsQuota cfg s = spool_usage_bytes s.spool ≤ cfg.snapshot_max_spool_bytes

write_and_insert-KeepsQuota :
    (cfg : CaptureConfig) (platform : Platform) (item : SnapshotItem) (i : ℕ) (s : CaptureState)
    → ltb cfg.snapshot_max_spool_bytes (spool_usage_bytes s.spool + length item.bytes) ≡ false
    → KeepsQuota cfg s
    → KeepsQuota cfg (write_and_insert platform item i s)
write_and_insert-KeepsQuota cfg platform item i s room h = elim (Bool-cases item.write_fails) [
  | inl failed ↦ simp failed h
  | inr wrote ↦
      let grown = usage-put s.spool (platform.path_of i) (length item.bytes) in
      let fits : spool_usage_bytes s.spool + length item.bytes ≤ cfg.snapshot_max_spool_bytes =
        ground arith in
      simp wrote (omega arith)
]

after_validation-KeepsQuota :
    (cfg : CaptureConfig) (platform : Platform) (item : SnapshotItem) (i : ℕ)
    (r : Option SnapshotRejection) (s : CaptureState)
    → ltb cfg.snapshot_max_spool_bytes (spool_usage_bytes s.spool + length item.bytes) ≡ false
    → KeepsQuota cfg s
    → KeepsQuota cfg (after_validation platform item i r s)
after_validation-KeepsQuota cfg platform item i (some reason) s room h = h
after_validation-KeepsQuota cfg platform item i none s room h =
    write_and_insert-KeepsQuota cfg platform item i s room h

capture_for-KeepsQuota :
    (cfg : CaptureConfig) (platform : Platform) (item : SnapshotItem) (i : Option ℕ)
    (s : CaptureState)
    → KeepsQuota cfg s
    → KeepsQuota cfg (capture_for cfg platform item i s)
capture_for-KeepsQuota cfg platform item none s h = h
capture_for-KeepsQuota cfg platform item (some i) s h =
    elim (Bool-cases
      (ltb cfg.snapshot_max_spool_bytes (spool_usage_bytes s.spool + length item.bytes))) [
        | inl full ↦ simp full h
        | inr room ↦ simp room (after_validation-KeepsQuota cfg platform item i _ s room h)
      ]

process_snapshot-KeepsQuota :
    (cfg : CaptureConfig) (platform : Platform) (item : SnapshotItem) (s : CaptureState)
    → KeepsQuota cfg s
    → KeepsQuota cfg (process_snapshot cfg platform item s)
unfolding process_snapshot
process_snapshot-KeepsQuota cfg platform item s h = elim (Bool-cases cfg.snapshot_capture_enabled) [
  | inl enabled ↦
      simp enabled (capture_for-KeepsQuota cfg platform item (platform.uuid_of item.event_id) s h)
  | inr disabled ↦ simp disabled h
]

-- The snapshots in their order.
unfoldable pub process_snapshots :
    CaptureConfig → Platform → CaptureState → List SnapshotItem → CaptureState
process_snapshots cfg platform s [] = s
process_snapshots cfg platform s (item ∷ items) =
    process_snapshots cfg platform (process_snapshot cfg platform item s) items

pub process_snapshots-KeepsQuota :
    (cfg : CaptureConfig) (platform : Platform) (s : CaptureState) (items : List SnapshotItem)
    → KeepsQuota cfg s
    → KeepsQuota cfg (process_snapshots cfg platform s items)
unfolding process_snapshots
process_snapshots-KeepsQuota cfg platform s [] h = h
process_snapshots-KeepsQuota cfg platform s (item ∷ items) h =
    process_snapshots-KeepsQuota cfg platform (process_snapshot cfg platform item s) items
      (process_snapshot-KeepsQuota cfg platform item s h)
