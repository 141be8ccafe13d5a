-- ===== src/Sync.antt =====
-- The upload of detections to the Backend: agent/src/weapon_detection_agent/sync.
pub mod Client
pub mod Worker
