-- ===== src/DnsMap.antt =====
-- The DNS map of frontend/src/lib/utils/dns/dnsMapGraph.ts: transactions grouped into workloads,
-- resolvers and edges.
pub mod Identity
pub mod Group
pub mod Model
pub mod Partition
pub mod Joined
mod Tests
