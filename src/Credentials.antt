-- ===== src/Credentials.antt =====
-- The credentials of the device: agent/src/weapon_detection_agent/validation/ and activation/.
pub mod Client
pub mod Monitor
pub mod Activation
pub mod Service
