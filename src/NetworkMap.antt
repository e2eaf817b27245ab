-- ===== src/NetworkMap.antt =====
-- The network map: gadget events as a graph of addresses.
pub mod Types
pub mod Config
pub mod Ids
pub mod Graph
pub mod Activity
mod Tests
