-- ===== src/Logging.antt =====
-- apis/logging: the logging configurations that the cluster holds, kept in memory and served to the
-- DataKit nodes.
pub mod Cache
pub mod Handler
