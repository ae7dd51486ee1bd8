-- ===== src/Member/Builders.antt =====
-- The services and StatefulSets that the managers ask for, built from a CellCluster.
pub mod Parts
pub mod Services
pub mod PdSet
pub mod StoreSet
pub mod ProxySet
pub mod Shape
