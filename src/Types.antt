-- ===== src/Types.antt =====
-- The data of frontend/src/types/index.ts, a child module for each part. Counts, sizes, ports and
-- sequence numbers are natural numbers; optional fields are options. Rates and latencies, which
-- no modelled code computes with, are natural numbers too.
pub mod Cluster
pub mod Consumers
pub mod DeadLetters
pub mod Messages
pub mod Profiles
pub mod Publishing
pub mod Replays
pub mod Servers
pub mod Streams
pub mod Views
