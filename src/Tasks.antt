-- ===== src/Tasks.antt =====
-- src/task.c, include/reduct/task.h: the bounded queue of tasks that all threads push to and pop
-- from, and the barrier that they meet at.
pub mod Queue
pub mod System
pub mod Invariant
pub mod Moved
pub mod Moves
pub mod Steps
pub mod Advance
pub mod Safety
pub mod Order
pub mod Tests
