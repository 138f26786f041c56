-- ===== src/Interop.antt =====
-- include/jmpxx/interop: the bridges to other error facilities.
pub mod ErrorCode
pub mod Boundary
mod Tests
