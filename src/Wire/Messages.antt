-- ===== src/Wire/Messages.antt =====
-- The messages of the protocol: records, encoders and decoders.
pub mod Keys
pub mod Registration
pub mod Offloads
pub mod Prefetches
pub mod Leases
pub mod Objects
pub mod Versions
pub mod Reads
pub mod Releases
