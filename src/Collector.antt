-- ===== src/Collector.antt =====
-- src/item.c and src/gc.c: items, what an item refers to, marking, and sweeping.
pub mod Item
pub mod Children
pub mod Mark
pub mod Marks
pub mod Sweep
pub mod Swept
pub mod SweptRuns
pub mod SweptBlocks
pub mod Collect
pub mod Collected
pub mod New
pub mod Taken
pub mod Takes
mod Tests
