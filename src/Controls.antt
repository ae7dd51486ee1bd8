-- ===== src/Controls.antt =====
-- The object controls of pkg/controller: UpdateMetaInfo of pods and claims with an update as one
-- request, and the updates themselves, which are sent again after a conflict.
pub mod PodMeta
pub mod ClaimMeta
pub mod Retry
pub mod Client
pub mod Updates
pub mod Volumes
