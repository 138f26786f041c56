-- ===== src/StoreCheck.antt =====
-- reference_app/embedded/src/store_check.cpp: the validator of a record store, whose faults escape to
-- one landing through the frames of a recursive descent.
pub mod Fields
pub mod Check
pub mod Owners
pub mod Content
pub mod Released
pub mod Meaning
pub mod Lines
pub mod Steps
pub mod Sound
pub mod Flash
pub mod Image
pub mod Runs
mod Tests
