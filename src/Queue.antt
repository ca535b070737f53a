-- ===== src/Queue.antt =====
-- The task and result queues.
pub mod Interface
pub mod Fifo
pub mod Client
pub mod Spsc
pub mod Naive
pub mod Result
pub mod Mpmc
mod Tests
