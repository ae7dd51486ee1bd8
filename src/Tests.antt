-- ===== src/Tests.antt =====
-- The theorems at concrete clusters, and runs of the code.
pub mod Data
pub mod Evictions
pub mod Upgrades
pub mod Scaling
pub mod Managers
pub mod Services
pub mod Volumes
pub mod Scheduling
pub mod Labels
pub mod Clients
pub mod Queues
pub mod Pd
pub mod Flows
pub mod Rollouts
pub mod Replicas
pub mod Doubles
pub mod StoreRollouts
pub mod Writes
