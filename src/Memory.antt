-- ===== src/Memory.antt =====
-- The allocators of src/drivers/memory.c: pages in a bitmap, and small blocks in a heap.
pub mod Bitmap
pub mod Pages
pub mod Heap
mod Tests
