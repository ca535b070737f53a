-- ===== src/Engine/Pool/Shared/Order.antt =====
-- src/ThreadPool.cpp: the answers of a pool with one worker, in order.
use lumen_engine.Prelude.{ℕ, zero, suc, ◌≡◌, refl, ap, ◌∙◌, some, List, [], ◌∷◌, get_elem?, set}
use lumen_engine.Core.Types.{Text, InferenceTask}
use lumen_engine.Queue.Interface.{ITaskQueue}
use lumen_engine.Queue.Fifo.{Policy, Implements}
use lumen_engine.Memory.Arena.{LumenArena, reset}
use lumen_engine.Memory.Interface.{arena_allocator}
use lumen_engine.Engine.Run.{InferenceEngine, Durations}
use lumen_engine.Engine.Pool.Images.{IsImage}
use lumen_engine.Engine.Pool.Shared.{
  Worker, SharedPool, worker_step, submit_task, PoolStep, submits, moves, sets_stop, shuts_queue,
  run_steps,
}
use lumen_engine.Engine.Pool.Shared.Books.{in_hand}
use lumen_engine.Engine.Pool.Shared.Steps.{InOrder}
use lumen_engine.Engine.Pool.Shared.Accounts.{
  Balanced, AllSubmit, submit_task-Balanced, sets_stop-Balanced, shuts_queue-Balanced,
  moved-Stepped, nobody-worker_step,
}

module _ {F : Type 0} (t : ITaskQueue InferenceTask) (e : InferenceEngine F) (labels : List Text)
    (p : Policy) (imp : Implements t p) (arenas : List LumenArena) (batch_size : ℕ) where
  abbrev Pool : Type 0
  Pool = SharedPool t.Q LumenArena

  abbrev Sound : Pool → Type 0
  Sound = Balanced t e labels p imp arenas batch_size

  -- The books of a pool with one worker are in order, task by task.
  pub record Ordered (pool : Pool) : Type 0 where
    pub worker : Worker LumenArena
    pub alone : pool.workers ≡ worker ∷ []
    pub balanced : Sound pool
    pub in_order : InOrder t e labels p imp batch_size pool balanced.books (in_hand worker.place)

  worker_step-Ordered :
      (i : ℕ) (shown : ℕ × Durations) (pool : Pool)
      → Ordered pool
      → (pool' : Pool) × (worker_step t arena_allocator reset e batch_size i shown pool
          ≡ some pool')
        × Ordered pool'
  worker_step-Ordered zero shown pool h =
      let s =
        moved-Stepped t e labels p imp arenas batch_size 0 shown h.worker pool
          (ap (λ workers. get_elem? workers 0) h.alone) h.balanced in
      (
        s.pool',
        s.came,
        record {
          worker = s.worker;
          alone = s.workers ∙ ap (λ workers. set workers 0 s.worker) h.alone;
          balanced = s.balanced;
          in_order = s.follows.same_order h.in_order;
        },
      )
  worker_step-Ordered (suc i) shown pool h = (
    pool,
    nobody-worker_step t e labels p imp arenas batch_size (suc i) shown pool
        (ap (λ workers. get_elem? workers (suc i)) h.alone),
    h,
  )

  submit_task-Ordered :
      (task : InferenceTask) (pool : Pool)
      → IsImage labels task
      → Ordered pool
      → Ordered (submit_task t arena_allocator reset e batch_size task pool)
  unfolding submit_task
  submit_task-Ordered task pool image h =
      let r = submit_task-Balanced t e labels p imp arenas batch_size task pool image h.balanced in
      record {
        worker = h.worker;
        alone = h.alone;
        balanced = r.0;
        in_order = (r.1 (in_hand h.worker.place)).same_order h.in_order;
      }

  -- One worker with a task queue that keeps its promise, and with an arena that has been through its
  -- first request and has room: whatever the server, the worker and the owner do, in whatever order,
  -- the worker comes through; the results are, in order, the answers to the tasks served, one for
  -- each; the tasks served, then those of the batch in hand and then those in the queue are, in
  -- order, the tasks that the queue has accepted; and the arena is as it was. The submitted tasks
  -- carry the image processors, the shapes keep `transform` in its buffers, and ONNX Runtime takes
  -- them.
  pub run_steps-Ordered :
      (steps : List (PoolStep t arena_allocator reset e batch_size)) (pool : Pool)
      → AllSubmit t e labels p imp arenas batch_size steps
      → Ordered pool
      → (pool' : Pool) × (run_steps t arena_allocator reset e batch_size steps pool ≡ some pool')
        × Ordered pool'
  unfolding run_steps
  run_steps-Ordered [] pool ok h = (pool, refl, h)
  run_steps-Ordered (submits task ∷ steps) pool ok h =
      run_steps-Ordered steps _ ok.1 (submit_task-Ordered task pool ok.0 h)
  run_steps-Ordered (sets_stop ∷ steps) pool ok h = run_steps-Ordered steps _ ok (record {
    worker = h.worker;
    alone = h.alone;
    balanced = (sets_stop-Balanced t e labels p imp arenas batch_size pool h.balanced).0;
    in_order =
        (sets_stop-Balanced t e labels p imp arenas batch_size pool h.balanced).2
          (in_hand h.worker.place) h.in_order;
  })
  run_steps-Ordered (shuts_queue ∷ steps) pool ok h = run_steps-Ordered steps _ ok (record {
    worker = h.worker;
    alone = h.alone;
    balanced = (shuts_queue-Balanced t e labels p imp arenas batch_size pool h.balanced).0;
    in_order =
        (shuts_queue-Balanced t e labels p imp arenas batch_size pool h.balanced).2
          (in_hand h.worker.place) h.in_order;
  })
  run_steps-Ordered (moves i shown ∷ steps) pool ok h =
      let (pool₁, ran, h₁) = worker_step-Ordered i shown pool h in
      let (pool₂, ran₂, h₂) = run_steps-Ordered steps pool₁ ok h₁ in
      (pool₂, rw (ran, run_steps) ran₂, h₂)
