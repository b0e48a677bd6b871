-- ===== src/Memory.antt =====
-- The memory managers of src/memory.
pub mod Heap
pub mod Kheap
pub mod Pages
