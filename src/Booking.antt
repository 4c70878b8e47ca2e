-- ===== src/Booking.antt =====
-- The booking service: backend/services/booking.
pub mod Types
pub mod Store
pub mod Hours
pub mod Fingerprint
pub mod CatalogClient
pub mod Clients
pub mod Laws
pub mod Saga
pub mod Service
pub mod Confirm
pub mod Recovery
pub mod Http
pub mod Allocators
pub mod Fixture
mod Examples
