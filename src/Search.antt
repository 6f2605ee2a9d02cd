-- ===== src/Search.antt =====
-- tool/search.py.
pub mod Geometry
pub mod Reorder
pub mod Segments
pub mod Partitions
pub mod Latency
pub mod Hint
pub mod Sampling
pub mod Candidates
pub mod Choose
pub mod Solve
pub mod Backends
