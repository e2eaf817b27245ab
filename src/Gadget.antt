-- ===== src/Gadget.antt =====
-- The messages of running gadgets: buffered, run through the data processors, and stored.
pub mod Buffer
pub mod Processors
pub mod Flush
pub mod Snapshots
pub mod Arrays
mod Tests
