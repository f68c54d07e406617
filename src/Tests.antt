-- ===== src/Tests.antt =====
-- The theorems at concrete inputs, and runs of the definitions.
mod Election
mod Pods
mod Rules
mod Admission
mod LoggingConfigs
mod Values
mod Injection
mod Tracing
