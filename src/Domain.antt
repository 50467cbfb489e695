-- ===== src/Domain.antt =====
-- internal/domain: the pure rules of bookings, screenings, payments and users.
pub mod Booking
pub mod Movie
pub mod Payment
pub mod User
