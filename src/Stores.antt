-- ===== src/Stores.antt =====
-- The stores of the frontend.
pub mod Toast
pub mod Confirmation
mod Tests
