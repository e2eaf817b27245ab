-- ===== src/Dns.antt =====
-- The DNS view of the frontend, frontend/src/lib/utils/dns.
pub mod Types
pub mod Address
pub mod Parse
pub mod Entries
pub mod Correlate
pub mod Severity
pub mod Config
pub mod Tests
