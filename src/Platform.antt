-- ===== src/Platform.antt =====
-- src/platform: the modules of the platform layer that are modelled.
pub mod Numa
pub mod Thread
pub mod WorkerPool
