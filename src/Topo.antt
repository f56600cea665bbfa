-- ===== src/Topo.antt =====
-- The topology process of src/topo: a server that keeps the association table of the pods of a
-- cluster, and its clients.
pub mod Effect
pub mod Node
pub mod Context
pub mod Udp
pub mod Init
pub mod Run
pub mod Start
pub mod Serving
pub mod Polling
pub mod Fits
pub mod Cluster
mod Samples
mod Tests
mod UdpTests
mod ServingTests
mod ClusterTests
mod LoopTests
