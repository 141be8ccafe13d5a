-- ===== src/Runtime.antt =====
-- Which subsystems may run: agent/src/weapon_detection_agent/runtime/.
pub mod Coordinator
pub mod Supervisor
