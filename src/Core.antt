-- ===== src/Core.antt =====
-- include/jmpxx/core: the freestanding core.
pub mod Error
pub mod Outcome
pub mod Hardening
pub mod Transport
pub mod Lifetime
pub mod Propagation
mod Tests
