-- ===== src/Tests.antt =====
-- The library's theorems at concrete inputs.
pub mod Floats
pub mod Frames
pub mod Detection
pub mod Stores
pub mod Upload
pub mod Worker
pub mod Ingest
pub mod Connection
pub mod Capture
pub mod Bridge
pub mod Spool
pub mod Runtime
pub mod Credentials
pub mod Configuration
