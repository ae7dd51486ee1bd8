-- ===== src/Meta.antt =====
-- pkg/manager/meta: the reclaim policy of volumes, and the labels of pods, claims and volumes.
pub mod Reclaim
pub mod Sync
