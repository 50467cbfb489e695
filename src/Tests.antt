-- ===== src/Tests.antt =====
-- The library's tests: each property at a concrete input.
pub mod Fixtures
pub mod Runs
pub mod Stores
pub mod Server
pub mod Holds
pub mod Database
pub mod Outer
pub mod Services
pub mod Accounts
