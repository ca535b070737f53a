-- ===== src/Engine/Pool/Shared/Ends.antt =====
-- src/ThreadPool.cpp: the end of the workers' loops after `shutdown`.
use lumen_engine.Prelude.{
  ℕ, suc, ◌-◌, ◌≤◌, ◌≡◌, refl, ap, sym, subst, ◌∙◌, true, Option, some, List, [], ◌∷◌, get_elem?,
  set, get_elem?-set_ne, ◌==◌, Option-cases, inl, inr, if◌then◌else◌, arith, ℕ_discrete,
}
use lumen_engine.Core.Types.{Text, InferenceTask}
use lumen_engine.Queue.Interface.{ITaskQueue}
use lumen_engine.Queue.Fifo.{Policy, Implements}
use lumen_engine.Memory.Arena.{LumenArena, reset}
use lumen_engine.Memory.Interface.{arena_allocator}
use lumen_engine.Engine.Run.{InferenceEngine, Durations}
use lumen_engine.Engine.Pool.Images.{IsImage}
use lumen_engine.Engine.Pool.Shared.{
  Place, at_loop, at_pop, serving, ended, Worker, SharedPool, worker_step, submit_task, PoolStep,
  submits, moves, sets_stop, shuts_queue, run_steps,
}
use lumen_engine.Engine.Pool.Shared.Books.{steps_left, get_set}
use lumen_engine.Engine.Pool.Shared.Accounts.{
  Balanced, AllSubmit, submit_task-Balanced, sets_stop-Balanced, shuts_queue-Balanced,
  moved-Stepped, nobody-worker_step,
}

module _ {F : Type 0} (t : ITaskQueue InferenceTask) (e : InferenceEngine F) (labels : List Text)
    (p : Policy) (imp : Implements t p) (arenas : List LumenArena) (batch_size : ℕ) where
  abbrev Pool : Type 0
  Pool = SharedPool t.Q LumenArena

  abbrev Sound : Pool → Type 0
  Sound = Balanced t e labels p imp arenas batch_size

  -- Both steps of the shutdown are made, and worker `i` has at most `n` steps to make.
  record Ending (i n : ℕ) (pool : Pool) : Type 0 where
    worker : Worker LumenArena
    there : get_elem? pool.workers i ≡ some worker
    left : steps_left batch_size worker.place ≤ n
    balanced : Sound pool
    stop : pool.stop ≡ true
    stopped : balanced.books.fifo.stopped ≡ true

  no_steps : (place : Place) → steps_left batch_size place ≤ 0 → place ≡ ended
  no_steps at_loop h = absurd (omega arith)
  no_steps at_pop h = absurd (omega arith)
  no_steps (serving batch) h = absurd (omega arith)
  no_steps ended h = refl

  -- How many steps of worker `i` remain after one of worker `j`.
  abbrev after_move : (i j n : ℕ) → ℕ
  after_move i j n = if i == j then n - 1 else n

  worker_step-Ending :
      (i n j : ℕ) (shown : ℕ × Durations) (pool : Pool)
      → Ending i n pool
      → (pool' : Pool) × (worker_step t arena_allocator reset e batch_size j shown pool
          ≡ some pool')
        × Ending i (after_move i j n) pool'
  worker_step-Ending i n j shown pool h = elim (ℕ_discrete j i) [
    | yes same ↦
        let s =
          moved-Stepped t e labels p imp arenas batch_size j shown h.worker pool
            (subst (λ k. get_elem? pool.workers k ≡ some h.worker) (sym same) h.there) h.balanced in
        (
          s.pool',
          s.came,
          record {
            worker = s.worker;
            there =
                ap (λ workers. get_elem? workers i) s.workers
                ∙ subst (λ k. get_elem? (set pool.workers k s.worker) i ≡ some s.worker) (sym same)
                    (get_set pool.workers i h.worker s.worker h.there);
            left = ground (arith, s.nearer h.stop h.stopped, h.left, same);
            balanced = s.balanced;
            stop = s.follows.same_stop ∙ h.stop;
            stopped = s.follows.same_stopped ∙ h.stopped;
          },
        )
    | no differ ↦ elim (Option-cases (get_elem? pool.workers j)) [
      | inl nobody ↦ (
        pool,
        nobody-worker_step t e labels p imp arenas batch_size j shown pool nobody,
        record {
          worker = h.worker;
          there = h.there;
          left = ground (arith, h.left, differ);
          balanced = h.balanced;
          stop = h.stop;
          stopped = h.stopped;
        },
      )
      | inr (w, there) ↦
          let s =
            moved-Stepped t e labels p imp arenas batch_size j shown w pool there h.balanced in
          (
            s.pool',
            s.came,
            record {
              worker = h.worker;
              there =
                  ap (λ workers. get_elem? workers i) s.workers
                  ∙ get_elem?-set_ne pool.workers j i s.worker differ
                  ∙ h.there;
              left = ground (arith, h.left, differ);
              balanced = s.balanced;
              stop = s.follows.same_stop ∙ h.stop;
              stopped = s.follows.same_stopped ∙ h.stopped;
            },
          )
    ]
  ]

  submit_task-Ending :
      (i n : ℕ) (task : InferenceTask) (pool : Pool)
      → IsImage labels task
      → Ending i n pool
      → Ending i n (submit_task t arena_allocator reset e batch_size task pool)
  unfolding submit_task
  submit_task-Ending i n task pool image h =
      let r = submit_task-Balanced t e labels p imp arenas batch_size task pool image h.balanced in
      record {
        worker = h.worker;
        there = h.there;
        left = h.left;
        balanced = r.0;
        stop = h.stop;
        stopped = (r.1 []).same_stopped ∙ h.stopped;
      }

  -- How often worker `i` moves.
  abbrev pub count_moves : ℕ → List (PoolStep t arena_allocator reset e batch_size) → ℕ
  count_moves i [] = 0
  count_moves i (moves j shown ∷ steps) =
      let rest = count_moves i steps in if i == j then suc rest else rest
  count_moves i (submits task ∷ steps) = count_moves i steps
  count_moves i (sets_stop ∷ steps) = count_moves i steps
  count_moves i (shuts_queue ∷ steps) = count_moves i steps

  abbrev HasEnded : ℕ → Option Pool → Type 0
  HasEnded i o =
      (pool' : Pool) × (o ≡ some pool')
      × (w : Worker LumenArena) × (get_elem? pool'.workers i ≡ some w)
      × (w.place ≡ ended)

  run_steps-Ending :
      (i n : ℕ) (steps : List (PoolStep t arena_allocator reset e batch_size)) (pool : Pool)
      → AllSubmit t e labels p imp arenas batch_size steps
      → Ending i n pool
      → n ≤ count_moves i steps
      → HasEnded i (run_steps t arena_allocator reset e batch_size steps pool)
  unfolding run_steps
  run_steps-Ending i n [] pool ok h enough =
      (pool, refl, h.worker, h.there, no_steps h.worker.place (omega (arith, h.left)))
  run_steps-Ending i n (submits task ∷ steps) pool ok h enough =
      run_steps-Ending i n steps _ ok.1 (submit_task-Ending i n task pool ok.0 h) enough
  run_steps-Ending i n (sets_stop ∷ steps) pool ok h enough =
      run_steps-Ending i n steps _ ok
        (record {
          worker = h.worker;
          there = h.there;
          left = h.left;
          balanced = (sets_stop-Balanced t e labels p imp arenas batch_size pool h.balanced).0;
          stop = refl;
          stopped =
              (sets_stop-Balanced t e labels p imp arenas batch_size pool h.balanced).1 ∙ h.stopped;
        })
        enough
  run_steps-Ending i n (shuts_queue ∷ steps) pool ok h enough =
      run_steps-Ending i n steps _ ok
        (record {
          worker = h.worker;
          there = h.there;
          left = h.left;
          balanced = (shuts_queue-Balanced t e labels p imp arenas batch_size pool h.balanced).0;
          stop = h.stop;
          stopped = (shuts_queue-Balanced t e labels p imp arenas batch_size pool h.balanced).1;
        })
        enough
  run_steps-Ending i n (moves j shown ∷ steps) pool ok h enough =
      let (pool₁, ran, h₁) = worker_step-Ending i n j shown pool h in
      let rest = run_steps-Ending i (after_move i j n) steps pool₁ ok h₁ (ground (arith, enough)) in
      (rest.0, rw (ran, run_steps) rest.1, rest.2, rest.3, rest.4)

  -- With a task queue that keeps its promise, and from a pool whose books are in order, wherever its
  -- workers stand: once `shutdown` has set the flag and shut the queue, the loop of every worker
  -- ends, in any order of the steps of all, and pushes that come after. A worker at the test of the
  -- loop makes one step more, one in a batch two and one for each task left, and one that has passed
  -- the test and is about to pop at most three and one for each task of a batch; none of these waits.
  -- The submitted tasks carry the image processors.
  pub shutdown_lem :
      (i : ℕ) (w : Worker LumenArena) (steps : List (PoolStep t arena_allocator reset e batch_size))
      (pool : Pool)
      → AllSubmit t e labels p imp arenas batch_size steps
      → Sound pool
      → get_elem? pool.workers i ≡ some w
      → steps_left batch_size w.place ≤ count_moves i steps
      → (pool' : Pool) × (run_steps t arena_allocator reset e batch_size
            (sets_stop ∷ shuts_queue ∷ steps)
            pool
          ≡ some pool')
        × (w' : Worker LumenArena) × (get_elem? pool'.workers i ≡ some w')
        × (w'.place ≡ ended)
  unfolding run_steps
  shutdown_lem i w steps pool ok h there enough =
      let stopping = sets_stop-Balanced t e labels p imp arenas batch_size pool h in
      let shut = shuts_queue-Balanced t e labels p imp arenas batch_size _ stopping.0 in
      run_steps-Ending i (steps_left batch_size w.place) steps _ ok
        (record {
          worker = w;
          there = there;
          left = omega arith;
          balanced = shut.0;
          stop = refl;
          stopped = shut.1;
        })
        enough
