-- ===== src/Cluster.antt =====
-- client/datastor: the cluster of servers that a client stores objects on.
pub mod Types
pub mod Iterators
