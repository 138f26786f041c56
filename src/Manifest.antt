-- ===== src/Manifest.antt =====
-- reference_app/optee_ta/ta/manifest_ta.cpp: the trusted application that verifies a manifest, a
-- buffer that a client supplies. Its faults escape to one landing.
pub mod Reader
pub mod Find
pub mod Bounds
pub mod Walk
pub mod Verify
pub mod Entries
pub mod Owners
pub mod Steps
pub mod Sound
pub mod Session
pub mod Replies
pub mod Serving
mod Tests
