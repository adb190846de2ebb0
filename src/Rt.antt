-- ===== src/Rt.antt =====
-- The run-time system of src/core/rt.
pub mod Heap
pub mod Array
