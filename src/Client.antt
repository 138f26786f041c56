-- ===== src/Client.antt =====
-- reference_app/optee_ta/host/verify_client.c: the client of the trusted application, which builds
-- manifests and judges the answers.
pub mod Builder
pub mod Holds
pub mod Layout
pub mod Found
pub mod Judge
pub mod Parsed
pub mod Drive
pub mod Checked
mod Tests
