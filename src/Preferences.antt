-- ===== src/Preferences.antt =====
-- The preferences that the frontend keeps in local storage (frontend/src/lib/utils/env-preferences.ts).
pub mod Equality
pub mod Storage
pub mod Recents
pub mod History
pub mod Laws
pub mod Cleanup
pub mod Runs
mod Tests
