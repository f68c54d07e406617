-- ===== src/Injector.antt =====
-- apis/webhook/injector: the agents that are injected into a pod, and what the injectors share.
pub mod Setting
pub mod Added
pub mod Grown
pub mod Utils
pub mod Image
pub mod Profiler
pub mod Flameshot
pub mod DdTrace
pub mod OTel
pub mod Tracing
pub mod Logfwd
pub mod Unfailing
