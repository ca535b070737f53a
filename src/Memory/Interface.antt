-- ===== src/Memory/Interface.antt =====
-- include/lumen/interfaces/ILumenAllocator.hpp: what the engine asks of an allocator.
use lumen_engine.Prelude.{ℕ, Option}
use lumen_engine.Memory.Arena.{LumenArena, alloc, free, get_allocated_size}

pub record ILumenAllocator : Type 1 where
  pub S : Type 0
  pub alloc : S → ℕ → Option ℕ × S
  pub free : S → Option ℕ → S
  pub get_allocated_size : S → ℕ

abbrev pub arena_allocator : ILumenAllocator
arena_allocator = record {
  S = LumenArena;
  alloc = alloc;
  free = free;
  get_allocated_size = get_allocated_size;
}
