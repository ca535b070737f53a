-- ===== src/Engine/Pool.antt =====
-- src/ThreadPool.cpp: the pods and the constructor; Shared has the workers and the shutdown.
pub mod Images
pub mod Shared
pub mod Construct
mod Tests
use lumen_engine.Prelude.{
  ℕ, zero, suc, ◌*◌, Bool, true, false, Option, none, some, List, [], ◌∷◌, ◌++◌, if◌then◌else◌,
  ◌==◌,
}
use lumen_engine.Core.Types.{InferenceTask, InferenceResult}
use lumen_engine.Queue.Interface.{ITaskQueue, Blocking, blocked, returned}
use lumen_engine.Queue.Result.{NaiveResultQueue}
use lumen_engine.Memory.Arena.{LumenArena, Created, created, thrown}
use lumen_engine.Memory.Bytes.{Memory}
use lumen_engine.Memory.Interface.{ILumenAllocator}
use lumen_engine.Engine.Metadata.{Metadata, NewEngine, failed, made, made_in}
use lumen_engine.Engine.Metadata
use lumen_engine.Engine.Run.{InferenceEngine, Durations}
use lumen_engine.Engine.Worker.{serve_batch_with, workers_for}
use lumen_engine.Utils.Config.{AllocatorType, lumen_arena, standard}

-- A pod: an engine, and the allocator that is its own.
pub data WorkerPod : Type 0 where
  arena_pod : Metadata → LumenArena → Memory → WorkerPod
  standard_pod : Metadata → WorkerPod

-- What becomes of the constructor; a throw comes when the pods named are already at work.
pub data NewPool : Type 0 where
  pool_made : List WorkerPod → NewPool
  pool_failed : List WorkerPod → NewPool
  undefined : NewPool

-- One pod, put behind the others; `next` is the rest of the loop.
unfoldable pub add_pod : List WorkerPod → NewEngine → (List WorkerPod → NewPool) → NewPool
add_pod pods (failed e) next = pool_failed pods
add_pod pods Metadata.undefined next = undefined
add_pod pods (made meta) next = next (pods ++ (standard_pod meta ∷ []))
add_pod pods (made_in meta a m) next = next (pods ++ (arena_pod meta a m ∷ []))

-- The capacity of a pod's arena: 64 MiB.
abbrev pub pod_capacity : ℕ
pod_capacity = 64 * 1024 * 1024

-- `new_arena i capacity` is the arena of worker `i`, and `new_engine i` makes its engine.
module _ (new_arena : ℕ → ℕ → Created) (new_engine : ℕ → Option LumenArena → NewEngine) where
  unfoldable pub new_pod :
      AllocatorType → (i : ℕ) → List WorkerPod → (List WorkerPod → NewPool) → NewPool
  new_pod lumen_arena i pods next = elim (new_arena i pod_capacity) [
    | thrown e ↦ pool_failed pods
    | created a ↦ add_pod pods (new_engine i (some a)) next
  ]
  new_pod standard i pods next = add_pod pods (new_engine i none) next

  unfoldable pub new_pods : AllocatorType → (left i : ℕ) → List WorkerPod → NewPool
  new_pods alloc_type zero i pods = pool_made pods
  new_pods alloc_type (suc left) i pods =
      new_pod alloc_type i pods (λ pods'. new_pods alloc_type left (suc i) pods')

  unfoldable pub new_pool : (thread_count hardware_concurrency : ℕ) → AllocatorType → NewPool
  new_pool thread_count hardware_concurrency alloc_type =
      new_pods alloc_type (workers_for thread_count hardware_concurrency) 0 []
