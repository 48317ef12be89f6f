-- ===== src/Utils.antt =====
-- The package utils: the index pools over a binary heap, and the exponential backoff.
pub mod MinHeap
pub mod IndexPool
pub mod Backoff
