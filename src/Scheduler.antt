-- ===== src/Scheduler.antt =====
-- pkg/scheduler: the scheduler extender, which picks the nodes that a pod may run on.
pub mod Ha
pub mod Filter
pub mod Handlers
