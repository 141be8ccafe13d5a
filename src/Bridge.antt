-- ===== src/Bridge.antt =====
-- The Bridge process beside the pipeline: deployment/jetson/deepstream/bridge/app/deepstream_bridge/.
pub mod Rendezvous
pub mod Wire
pub mod Transport
pub mod Reader
