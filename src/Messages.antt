-- ===== src/Messages.antt =====
-- The messages of the backend: their dispatch, and what they change of the environments and the
-- deployments (frontend/src/lib/services/message-router.service.svelte.ts and handlers).
pub mod Router
pub mod Deployments
mod Updates
mod Tests
