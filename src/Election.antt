-- ===== src/Election.antt =====
-- Leader election among DataKit agents (apis/election): the Lease, what an operator has observed of
-- it, the campaign and the heartbeat, the metrics and the HTTP handler.
pub mod Lease
pub mod LeaseCache
pub mod Observation
pub mod Metrics
pub mod Cluster
pub mod Coordinator
pub mod LeaseName
pub mod Handler
