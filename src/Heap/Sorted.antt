-- ===== src/Heap/Sorted.antt =====
-- The sorted bin as the list of its chunks, the smallest first.
pub mod List
pub mod Insert
pub mod Take
