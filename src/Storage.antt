-- ===== src/Storage.antt =====
-- client/datastor/pipeline/storage: the ways in which a chunk is stored over the shards of a cluster.
pub mod Types
pub mod Erasure
pub mod Distributed
pub mod Random
pub mod Replicated
