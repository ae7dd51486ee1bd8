-- ===== src/Effects.antt =====
-- How the managers act: they read caches, write requests to the API server and to PD, change the
-- CellCluster that they were given, and may return an error at any point.
-- The listers' caches, the cluster and the StatefulSet under construction are the state `World`;
-- the answers of the API server and of PD, the clock and the encodings are the parameter `Env`.
pub mod Types
pub mod Exec
pub mod Listers
pub mod Requests
pub use Types.*
unfoldable pub use Exec.*
unfoldable pub use Listers.*
pub use Requests.{Grown, grown_same, grown_more, Grown-trans, bind-Grown}
