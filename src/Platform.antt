-- ===== src/Platform.antt =====
-- include/jmpxx/platform: the stack-trace capture behind its boundary.
pub mod Trace
mod Tests
