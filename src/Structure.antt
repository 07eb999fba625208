-- ===== src/Structure.antt =====
-- The containers of structure/.
pub mod Heap
pub mod Ms
