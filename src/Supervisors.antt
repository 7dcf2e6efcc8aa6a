-- ===== src/Supervisors.antt =====
-- core/supervisors: the worker that finishes an upload.
pub mod Merge
pub mod Executor
pub mod Producer
pub mod Cycle
