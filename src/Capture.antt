-- ===== src/Capture.antt =====
-- Snapshot files: agent/src/weapon_detection_agent/detection/snapshot_capture.py, and
-- `_process_snapshot` of detection/ingest_handler.py.
pub mod Jpeg
pub mod Spool
