-- ===== src/Upload.antt =====
-- The upload of snapshots: agent/src/weapon_detection_agent/snapshot/.
pub mod Client
pub mod Worker
