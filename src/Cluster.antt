-- ===== src/Cluster.antt =====
-- luaclib-src/lcluster.c: length-prefixed packets of the cluster protocol, cut from byte streams.
pub mod State
pub mod Ring
pub mod Frame
pub mod Pack
mod Tests
