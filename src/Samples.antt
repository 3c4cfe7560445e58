-- ===== src/Samples.antt =====
-- Concrete inputs: a platform with printable codes in place of hashes, and runs of the theorems on
-- small tokens, gates, graphs, topologies and dispatchers.
pub mod Codec
pub mod Hashing
pub mod Tokens
pub mod Gates
pub mod Schema
pub mod Topology
pub mod Dispatch
pub mod Audit
pub mod Verdicts
pub mod Appliance
pub mod Cli
pub mod Tamper
pub mod Progress
