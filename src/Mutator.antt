-- ===== src/Mutator.antt =====
-- apis/webhook/mutator: the annotation that tells DataKit which logs of a pod to collect.
pub mod Logging
