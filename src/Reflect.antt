-- ===== src/Reflect.antt =====
-- include/jmpxx/reflect.hpp on a compiler without static reflection, GCC or Clang: an enum's names from
-- the compiler's own spelling of its values.
pub mod Spelling
pub mod Scan
pub mod Laws
pub mod Message
pub mod Meta
pub mod Place
pub mod Ordered
mod Tests
