-- ===== src/Engine/Worker.antt =====
-- `ThreadPool::worker_loop` of src/ThreadPool.cpp with an arena: what one batch of tasks becomes.
pub mod Room
pub mod Answers
use lumen_engine.Prelude.{
  ℕ, zero, suc, ◌+◌, ◌-◌, ◌*◌, ◌/◌, ◌%◌, ◌^◌, ◌≤◌, ◌<◌, ◌≡◌, refl, sym, ap, ap₂, ◌∙◌, subst, Bool,
  true, false, Bool-cases, Option, none, some, List, [], ◌∷◌, if◌then◌else◌, if_elim, arith, length,
  ltb, ◌==◌, mul_size,
}
use lumen_engine.Core.Types.{
  Text, InferenceTask, InferenceTrace, InferenceResult, get_elapsed_ms, new_result, imagenet_pre,
  imagenet_post,
}
use lumen_engine.Memory.Arena.{LumenArena, alloc, alloc_raw, free, reset}
use lumen_engine.Memory.Arena.Alloc.{IsValid, alloc_raw_fits, alloc_raw-keeps}
use lumen_engine.Memory.Arena.Steady.{IsSteady}
use lumen_engine.Memory.Interface.{ILumenAllocator, arena_allocator}
use lumen_engine.Queue.Result.{NaiveResultQueue, push}
use lumen_engine.Engine.Run.{
  InferenceEngine, Durations, Ran, answered, undefined, run, infer, with_processors, input_count,
  output_count, stays_in, size_mismatch, label_of, timed,
}

-- The constructor's choice of the number of workers.
unfoldable pub workers_for : (thread_count hardware_concurrency : ℕ) → ℕ
workers_for thread_count hardware_concurrency =
    if thread_count == 0
    then if hardware_concurrency == 0 then 2 else hardware_concurrency
    else thread_count

abbrev pub waited_trace : (now : ℕ) → Option InferenceTrace → Option InferenceTrace
waited_trace now none = none
waited_trace now (some trace) = some (record trace { queue_wait_ms = get_elapsed_ms now trace })

abbrev pub waited : (now : ℕ) → InferenceTask → InferenceTask
waited now task = record task { trace = waited_trace now task.trace }

-- `after_task` is the reset of an allocator that is an arena; for another one it does nothing.
module _ {F : Type 0} (a : ILumenAllocator) (after_task : a.S → a.S) (e : InferenceEngine F) where
  -- The `for` over the batch: each task with the time at which it is taken up and the durations
  -- that its timers measure. `none`: the worker has not come through.
  unfoldable pub serve_batch_with :
      List (ℕ × Durations × InferenceTask)
      → a.S
      → NaiveResultQueue InferenceResult
      → Option (a.S × NaiveResultQueue InferenceResult)
  serve_batch_with [] s q = some (s, q)
  serve_batch_with ((now, times, task) ∷ batch) s q = elim (run a e times (waited now task) s) [
    | undefined ↦ none
    | answered res s' ↦ serve_batch_with batch (after_task s') (push res q)
  ]

abbrev pub serve_batch :
    {F : Type 0} (e : InferenceEngine F)
    → List (ℕ × Durations × InferenceTask)
    → LumenArena
    → NaiveResultQueue InferenceResult
    → Option (LumenArena × NaiveResultQueue InferenceResult)
serve_batch e = serve_batch_with arena_allocator reset e
