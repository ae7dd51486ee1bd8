-- ===== src/Api.antt =====
-- The objects that the operator reads and writes: those of Kubernetes, with the fields that the
-- source uses, and the CellCluster resource of pkg/apis/deepfabric.com/v1alpha1.
pub mod Pods
pub mod Objects
pub mod Cluster
pub mod Status
pub mod Available
