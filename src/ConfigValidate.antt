-- ===== src/ConfigValidate.antt =====
-- reference_app/src/config_validate.cpp and limits_check.hpp: the configuration validator, a client of
-- the transport, the propagation macros and the erased error. The application's error policy is the
-- minimal one.
pub mod Program
pub mod Main
pub mod Server
mod Tests
