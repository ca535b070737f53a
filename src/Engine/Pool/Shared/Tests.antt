-- ===== src/Engine/Pool/Shared/Tests.antt =====
-- src/ThreadPool.cpp: two workers on the mutex queue, with a model of one pixel.
use lumen_engine.Prelude.{
  get_elem?, get_or, leb, ℕ, ◌≡◌, refl, true, false, some, List, [], ◌∷◌, arith, ltb, pos,
}
use lumen_engine.Core.Types.{Text, InferenceTask, imagenet_pre, imagenet_post, new_trace}
use lumen_engine.Memory.Arena.{LumenArena, reset}
use lumen_engine.Memory.Arena.Alloc.{IsValid}
use lumen_engine.Memory.Interface.{arena_allocator}
use lumen_engine.Queue.Naive.{NaiveTaskQueue, naive_task_queue}
use lumen_engine.Queue.Naive.Contract.{naive_policy, naive_implements}
use lumen_engine.Engine.Run.{InferenceEngine, Durations, count_of}
use lumen_engine.Engine.Pool.Shared.{
  at_pop, ended, at_loop, Worker, SharedPool, PoolStep, submits, moves, sets_stop, shuts_queue,
  run_steps,
}
use lumen_engine.Engine.Pool.Shared.Books.{Fit}
use lumen_engine.Engine.Pool.Shared.Order.{Ordered, run_steps-Ordered}
use lumen_engine.Engine.Pool.Shared.Ends.{shutdown_lem}
use lumen_engine.Engine.Pool.Shared.Accounts.{Balanced, run_steps-Balanced}

abbrev engine : InferenceEngine ℕ
engine = record {
  input_node_dims = pos 1 ∷ pos 3 ∷ pos 1 ∷ pos 1 ∷ [];
  output_node_dims = pos 1 ∷ pos 2 ∷ [];
  session = λ input i. get_or input i 0;
  creates_tensor = λ dims count. leb (count_of 1 dims) count;
  session_blocks = 30 ∷ [];
  normalise = λ c pixel. pixel;
  less = ltb;
  zero_float = 0;
}

abbrev arena_at : ℕ → LumenArena
arena_at p = record {
  arena_ptr = p;
  capacity = 400;
  offset = 128;
  warmup_offset = 128;
  warmed_up = true;
}

abbrev labels : List Text
labels = (97 ∷ []) ∷ (98 ∷ []) ∷ []

abbrev task : ℕ → InferenceTask
task pixel = record {
  client_fd = pos 7;
  bytes = 1 ∷ pixel ∷ 3 ∷ [];
  pre = some imagenet_pre;
  post = some (imagenet_post labels);
  trace = some (new_trace 2 0);
}

abbrev worker_at : ℕ → Worker LumenArena
worker_at p = record { place = at_loop; allocator = arena_at p }

abbrev pool : SharedPool (NaiveTaskQueue InferenceTask) LumenArena
pool = record {
  task_queue = record { items = []; stop = false };
  response_queue = record { items = []; stop = false };
  stop = false;
  workers = worker_at 640 ∷ worker_at 1280 ∷ [];
  accepted = [];
}

abbrev shown : ℕ × Durations
shown = (20, record { preprocess = 1; inference = 5; postprocess = 2 })

-- The second worker takes the first task, and the first worker is done before it.
abbrev steps : List (PoolStep (naive_task_queue InferenceTask) arena_allocator reset engine 1)
steps =
    submits (task 8)
    ∷ submits (task 9)
    ∷ moves 1 shown
    ∷ moves 1 shown
    ∷ moves 0 shown
    ∷ moves 0 shown
    ∷ moves 0 shown
    ∷ submits (task 4)
    ∷ sets_stop
    ∷ moves 1 shown
    ∷ shuts_queue
    ∷ moves 0 shown
    ∷ []

worker_at-Fit : (p : ℕ) → IsValid (arena_at p) → Fit engine labels (worker_at p)
unfolding count_of
worker_at-Fit p valid = record {
  steady = record { warm = refl; at_mark = refl };
  room = record {
    valid = valid;
    shaped = refl;
    input_small = omega arith;
    output_small = omega arith;
    session_small = (omega arith, tt);
    fits = omega arith;
  };
  images = tt;
}

run_steps-Balanced_example :
    (pool' : SharedPool (NaiveTaskQueue InferenceTask) LumenArena) × (run_steps
        (naive_task_queue InferenceTask)
        arena_allocator
        reset
        engine
        1
        steps
        pool
      ≡ some pool')
    × Balanced
        (naive_task_queue InferenceTask)
        engine
        labels
        naive_policy
        naive_implements
        (arena_at 640 ∷ arena_at 1280 ∷ [])
        1
        pool'
unfolding count_of naive_implements
run_steps-Balanced_example =
    run_steps-Balanced (naive_task_queue InferenceTask) engine labels naive_policy naive_implements
      (arena_at 640 ∷ arena_at 1280 ∷ []) 1 steps pool
      ((refl, refl), ((refl, refl), ((refl, refl), tt)))
      (record {
        books = record {
          served = [];
          fifo = record { items = []; stopped = false };
          represents = refl;
          answers = refl;
          images = tt;
          counted = λ f. refl;
        };
        same_arenas = refl;
        fit = (worker_at-Fit 640 (omega arith), (worker_at-Fit 1280 (omega arith), tt));
      })

abbrev one_worker : SharedPool (NaiveTaskQueue InferenceTask) LumenArena
one_worker = record pool { workers = worker_at 640 ∷ [] }

abbrev one_steps : List (PoolStep (naive_task_queue InferenceTask) arena_allocator reset engine 2)
one_steps =
    submits (task 8)
    ∷ submits (task 9)
    ∷ moves 0 shown
    ∷ moves 0 shown
    ∷ submits (task 4)
    ∷ moves 0 shown
    ∷ sets_stop
    ∷ moves 0 shown
    ∷ shuts_queue
    ∷ moves 0 shown
    ∷ []

run_steps-Ordered_example :
    (pool' : SharedPool (NaiveTaskQueue InferenceTask) LumenArena) × (run_steps
        (naive_task_queue InferenceTask)
        arena_allocator
        reset
        engine
        2
        one_steps
        one_worker
      ≡ some pool')
    × Ordered
        (naive_task_queue InferenceTask)
        engine
        labels
        naive_policy
        naive_implements
        (arena_at 640 ∷ [])
        2
        pool'
unfolding count_of naive_implements
run_steps-Ordered_example =
    run_steps-Ordered (naive_task_queue InferenceTask) engine labels naive_policy naive_implements
      (arena_at 640 ∷ []) 2 one_steps one_worker ((refl, refl), ((refl, refl), ((refl, refl), tt)))
      (record {
        worker = worker_at 640;
        alone = refl;
        balanced = record {
          books = record {
            served = [];
            fifo = record { items = []; stopped = false };
            represents = refl;
            answers = refl;
            images = tt;
            counted = λ f. refl;
          };
          same_arenas = refl;
          fit = (worker_at-Fit 640 (omega arith), tt);
        };
        in_order = refl;
      })

-- Worker 0 has passed the test of its loop, and a task is in the queue.
abbrev late : SharedPool (NaiveTaskQueue InferenceTask) LumenArena
late = record {
  task_queue = record { items = task 8 ∷ []; stop = false };
  response_queue = record { items = []; stop = false };
  stop = false;
  workers = record { place = at_pop; allocator = arena_at 640 } ∷ [];
  accepted = task 8 ∷ [];
}

abbrev late_steps : List (PoolStep (naive_task_queue InferenceTask) arena_allocator reset engine 1)
late_steps = moves 0 shown ∷ moves 0 shown ∷ submits (task 9) ∷ moves 0 shown ∷ moves 0 shown ∷ []

shutdown_lem_example :
    (pool' : SharedPool (NaiveTaskQueue InferenceTask) LumenArena) × (run_steps
        (naive_task_queue InferenceTask)
        arena_allocator
        reset
        engine
        1
        (sets_stop ∷ shuts_queue ∷ late_steps)
        late
      ≡ some pool')
    × (w' : Worker LumenArena) × (get_elem? pool'.workers 0 ≡ some w')
    × (w'.place ≡ ended)
unfolding count_of naive_implements
shutdown_lem_example =
    shutdown_lem (naive_task_queue InferenceTask) engine labels naive_policy naive_implements
      (arena_at 640 ∷ []) 1 0 (record { place = at_pop; allocator = arena_at 640 }) late_steps late
      ((refl, refl), tt)
      (record {
        books = record {
          served = [];
          fifo = record { items = task 8 ∷ []; stopped = false };
          represents = refl;
          answers = refl;
          images = ((refl, refl), tt);
          counted = λ f. omega arith;
        };
        same_arenas = refl;
        fit = (
          record {
            steady = (worker_at-Fit 640 (omega arith)).steady;
            room = (worker_at-Fit 640 (omega arith)).room;
            images = tt;
          },
          tt,
        );
      })
      refl (omega arith)
