-- ===== src/Engine/Pool/Shared.antt =====
-- src/ThreadPool.cpp: several workers on one task queue, in every interleaving. A call of a queue,
-- and the serving of one task, is one step.
pub mod Books
pub mod Steps
pub mod Accounts
pub mod Order
pub mod Ends
mod Tests
use lumen_engine.Prelude.{
  ℕ, Bool, true, false, Option, none, some, List, [], ◌∷◌, ◌++◌, if◌then◌else◌, ◌==◌, get_elem?,
  set,
}
use lumen_engine.Core.Types.{InferenceTask, InferenceResult}
use lumen_engine.Queue.Interface.{ITaskQueue, Blocking, blocked, returned}
use lumen_engine.Queue.Result.{NaiveResultQueue}
use lumen_engine.Memory.Interface.{ILumenAllocator}
use lumen_engine.Engine.Run.{InferenceEngine, Durations}
use lumen_engine.Engine.Worker.{serve_batch_with}

-- Where a worker is in `worker_loop`: at the test of the `while`, at `pop_batch`, in the loop over
-- the batch with the tasks that are left, or through.
pub data Place : Type 0 where
  at_loop : Place
  at_pop : Place
  serving : List InferenceTask → Place
  ended : Place

pub record Worker (S : Type 0) : Type 0 where
  pub place : Place
  pub allocator : S

-- `accepted` is no part of the program: the tasks that the queue has taken, in order.
pub record SharedPool (Q S : Type 0) : Type 0 where
  pub task_queue : Q
  pub response_queue : NaiveResultQueue InferenceResult
  pub stop : Bool
  pub workers : List (Worker S)
  pub accepted : List InferenceTask

-- Where a worker goes with the batch that it has popped.
abbrev pub with_batch : ℕ → List InferenceTask → Place
with_batch count batch = if count == 0 then at_loop else serving batch

module _ {F : Type 0} (t : ITaskQueue InferenceTask) (a : ILumenAllocator) (after_task : a.S → a.S)
    (e : InferenceEngine F) (batch_size : ℕ) where
  -- The next step of a worker at a place and with an allocator; `shown` is what the clock and the
  -- timers show. `none`: the worker has not come through.
  unfoldable pub move_from :
      Place
      → (shown : ℕ × Durations) → a.S
      → SharedPool t.Q a.S
      → Option (Worker a.S × SharedPool t.Q a.S)
  move_from at_loop shown s pool =
      some (record { place = if pool.stop then ended else at_pop; allocator = s }, pool)
  move_from at_pop shown s pool = elim (t.pop_batch [] batch_size pool.task_queue) [
    | blocked ↦ some (record { place = at_pop; allocator = s }, pool)
    | returned (count, batch, q) ↦
        some
          (record { place = with_batch count batch; allocator = s }, record pool { task_queue = q })
  ]
  move_from (serving []) shown s pool = some (record { place = at_loop; allocator = s }, pool)
  move_from (serving (task ∷ batch)) shown s pool =
      elim (serve_batch_with a after_task e ((shown.0, shown.1, task) ∷ []) s pool.response_queue) [
        | none ↦ none
        | some (s', q) ↦
            some
              (record { place = serving batch; allocator = s' }, record pool { response_queue = q })
      ]
  move_from ended shown s pool = some (record { place = ended; allocator = s }, pool)

  unfoldable pub worker_step :
      (i : ℕ) (shown : ℕ × Durations) → SharedPool t.Q a.S → Option (SharedPool t.Q a.S)
  worker_step i shown pool = elim (get_elem? pool.workers i) [
    | none ↦ some pool
    | some w ↦ elim (move_from w.place shown w.allocator pool) [
      | none ↦ none
      | some (w', pool') ↦ some (record pool' { workers = set pool'.workers i w' })
    ]
  ]

  unfoldable pub submit_task : InferenceTask → SharedPool t.Q a.S → SharedPool t.Q a.S
  submit_task task pool =
      let r = t.push task pool.task_queue in
      record pool {
        task_queue = r.1;
        accepted = if r.0 then pool.accepted ++ (task ∷ []) else pool.accepted;
      }

  -- The server, the workers by their numbers, and the two steps of `shutdown`, which may come more
  -- often here than in the program.
  pub data PoolStep : Type 0 where
    submits : InferenceTask → PoolStep
    moves : (i : ℕ) → ℕ × Durations → PoolStep
    sets_stop : PoolStep
    shuts_queue : PoolStep

  unfoldable pub run_steps : List PoolStep → SharedPool t.Q a.S → Option (SharedPool t.Q a.S)
  run_steps [] pool = some pool
  run_steps (submits task ∷ steps) pool = run_steps steps (submit_task task pool)
  run_steps (sets_stop ∷ steps) pool = run_steps steps (record pool { stop = true })
  run_steps (shuts_queue ∷ steps) pool =
      run_steps steps (record pool { task_queue = t.shutdown pool.task_queue })
  run_steps (moves i shown ∷ steps) pool = elim (worker_step i shown pool) [
    | none ↦ none
    | some pool' ↦ run_steps steps pool'
  ]
