-- ===== src/Postgres.antt =====
-- internal/adapters/postgres: the repositories, over the statements of db/queries and the tables of
-- migrations.
pub mod Sql
pub mod Bookings
pub mod Payments
pub mod Tokens
pub mod Users
