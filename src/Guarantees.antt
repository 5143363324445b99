-- ===== src/Guarantees.antt =====
-- What the handlers of backend/app/bookings/service.py promise, request by request.
pub mod Reservations
pub mod Retries
pub mod Attempts
pub mod Refunds
pub mod Queries
