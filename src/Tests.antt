-- ===== src/Tests.antt =====
-- Concrete runs of the model, and the theorems at concrete inputs.
pub mod Data
pub mod Crypto
mod Seed
mod Runs
mod Bookings
mod Payments
mod Trains
mod Auth
mod Settings
mod Ratelimit
mod Demo
mod Admin
mod Queries
mod Routes
mod Migration
mod Interleavings
mod Api
mod Loadgen
