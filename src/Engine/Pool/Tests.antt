-- ===== src/Engine/Pool/Tests.antt =====
-- src/ThreadPool.cpp: the constructor, when the arena of the second pod is refused.
use lumen_engine.Prelude.{ℕ, true, Option, [], zero, suc, ◌≤◌}
use lumen_engine.Memory.Arena.{LumenArena, Created, created, thrown, no_memory}
use lumen_engine.Engine.Pool.{new_pool}
use lumen_engine.Engine.Pool.Construct.{Counted, new_pool-Counted}
use lumen_engine.Engine.Metadata.{NewEngine, made, on_heap}
use lumen_engine.Engine.Worker.{workers_for}
use lumen_engine.Utils.Config.{lumen_arena}

abbrev arena : LumenArena
arena = record {
  arena_ptr = 640;
  capacity = 400;
  offset = 128;
  warmup_offset = 128;
  warmed_up = true;
}

abbrev no_arena : ℕ → ℕ → Created
no_arena i capacity = elim i [ zero ↦ created arena | suc j ↦ thrown no_memory ]

abbrev no_nodes : ℕ → Option LumenArena → NewEngine
no_nodes i o = made (on_heap [] [])

new_pool-Counted_example : Counted no_nodes 2 (new_pool no_arena no_nodes 0 0 lumen_arena) × (1 ≤ 2)
unfolding workers_for
new_pool-Counted_example = new_pool-Counted no_arena no_nodes 0 0 lumen_arena
