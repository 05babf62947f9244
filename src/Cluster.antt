-- ===== src/Cluster.antt =====
-- internal/cluster: the nodes that a master knows, and the requests it forwards to them.
pub mod Defs
pub mod Targets
