-- ===== src/Member.antt =====
-- pkg/manager/member: the managers of PD, the stores and the proxies, with their scaler,
-- upgraders, failover and the cleaner of orphan pods.
pub mod Config
pub mod Rollout
pub mod PdUpgrader
pub mod ProxyUpgrader
pub mod StoreUpgrader
pub mod Scaler
pub mod StoreScaler
pub mod Failover
pub mod Orphans
pub mod Builders
pub mod Update
pub mod ServiceSync
pub mod Revisions
pub mod PdManager
pub mod StoreManager
pub mod ProxyManager
pub mod StoreLabels
