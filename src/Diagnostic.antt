-- ===== src/Diagnostic.antt =====
-- include/jmpxx/diagnostic and include/jmpxx/diagnostics.hpp: the out-of-band context of failures.
pub mod Store
pub mod Rich
pub mod Issued
pub mod Landing
pub mod Threads
pub mod Hops
pub mod Propagate
pub mod Print
mod Tests
