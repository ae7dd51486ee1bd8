-- ===== src/Util.antt =====
-- pkg/util/util.go, and the helpers of pkg/controller/controller_utils.go that build objects.
pub mod Texts
pub mod Sorting
pub mod Affinity
pub mod Resources
pub mod Helpers
