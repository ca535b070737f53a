-- ===== src/Queue/Naive.antt =====
-- include/lumen/concurrency/NaiveTaskQueue.hpp: a `std::queue` under a
-- mutex. Every method holds the mutex throughout, so a call is one step.
pub mod Contract
use lumen_engine.Prelude.{
  ℕ, zero, suc, ◌+◌, Bool, true, false, not, ◌&&◌, ◌||◌, Option, none, some, List, [], ◌∷◌, ◌++◌,
  if◌then◌else◌, ◌==◌, length,
}
use lumen_engine.Queue.Interface.{Blocking, blocked, returned, ITaskQueue}

-- `std::queue`, front first, and the flag; the mutex and the condition variable have no data.
pub record NaiveTaskQueue (A : Type 0) : Type 0 where
  pub items : List A
  pub stop : Bool

abbrev is_empty : {A : Type 0} → List A → Bool
is_empty [] = true
is_empty (x ∷ xs) = false

module _ {A : Type 0} where
  pub push : A → NaiveTaskQueue A → Bool × NaiveTaskQueue A
  push task q = (true, record q { items = q.items ++ (task ∷ []) })

  -- The predicate of `cv.wait`.
  abbrev pub can_return : NaiveTaskQueue A → Bool
  can_return q = not (is_empty q.items) || q.stop

  abbrev pub take_front : NaiveTaskQueue A → List A → Option A × NaiveTaskQueue A
  take_front q [] = (none, q)
  take_front q (x ∷ xs) = (some x, record q { items = xs })

  pub pop : NaiveTaskQueue A → Blocking (Option A × NaiveTaskQueue A)
  pop q = if can_return q then returned (take_front q q.items) else blocked

  -- `while (!data.empty() && count < max_batch_size)`, with the rounds left.
  pub pop_batch_loop :
      (rounds count : ℕ) (batch items : List A) → Bool → ℕ × List A × NaiveTaskQueue A
  pop_batch_loop zero count batch items stop = (count, batch, record { items = items; stop = stop })
  pop_batch_loop (suc rounds) count batch [] stop =
      (count, batch, record { items = []; stop = stop })
  pop_batch_loop (suc rounds) count batch (x ∷ xs) stop =
      pop_batch_loop rounds (count + 1) (batch ++ (x ∷ [])) xs stop

  pub pop_batch : List A → ℕ → NaiveTaskQueue A → Blocking (ℕ × List A × NaiveTaskQueue A)
  pop_batch batch max q =
      if can_return q
      then if is_empty q.items
        then returned (0, batch, q)
        else returned (pop_batch_loop max 0 batch q.items q.stop)
      else blocked

  pub size : NaiveTaskQueue A → ℕ
  size q = length q.items

  pub empty : NaiveTaskQueue A → Bool
  empty q = is_empty q.items

  pub shutdown : NaiveTaskQueue A → NaiveTaskQueue A
  shutdown q = record q { stop = true }

abbrev pub naive_task_queue : (A : Type 0) → ITaskQueue A
naive_task_queue A = record {
  Q = NaiveTaskQueue A;
  push = push;
  pop = pop;
  pop_batch = pop_batch;
  size = size;
  empty = empty;
  shutdown = shutdown;
}
