-- ===== src/Memory.antt =====
-- internal/adapters/memory: the in-memory stores behind the application's ports.
-- Each method runs under the store's mutex, so it is one function from the store to the store; the
-- clock's reading and the identity that a method mints are arguments.
pub mod SeatKey
pub mod HoldStore
pub mod BookingStore
pub mod PaymentStore
pub mod RefreshTokenStore
pub mod UserStore
pub mod Catalog
