-- ===== src/Application.antt =====
-- internal/application: the use cases, over their ports.
pub mod Ports
pub mod Booking
pub mod Payment
pub mod Licence
pub mod Auth
pub mod Catalog
