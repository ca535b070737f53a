-- ===== src/Memory.antt =====
-- The allocators of include/lumen/memory and src/LumenArena.cpp, and the memory behind them.
pub mod Arena
pub mod Standard
pub mod Interface
pub mod Bytes
mod Tests
