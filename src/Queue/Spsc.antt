-- ===== src/Queue/Spsc.antt =====
-- include/lumen/concurrency/SPSCTaskQueue.hpp: a ring of 1024 slots with two free-running counters.
-- Each method as one uninterrupted call.
pub mod Refine
pub mod Batch
pub mod Contract
pub mod Threads
use lumen_engine.Prelude.{
  ℕ, zero, suc, ◌+◌, ◌%◌, Bool, true, false, Option, none, some, List, [], ◌∷◌, ◌++◌, if◌then◌else◌,
  ◌==◌, get_or, set, replicate, add_size, sub_size,
}
use lumen_engine.Queue.Interface.{Movable, Blocking, returned, ITaskQueue}

abbrev pub capacity : ℕ
capacity = 1024

-- `x & Mask`, where `Mask` is `Capacity - 1`, ten one bits.
abbrev pub masked : ℕ → ℕ
masked x = x % capacity

-- The fields; `head` and `tail` are `std::atomic<size_t>`.
pub record SpscTaskQueue (A : Type 0) : Type 0 where
  pub buffer : List A
  pub head : ℕ
  pub tail : ℕ
  pub stop_flag : Bool

module _ {A : Type 0} ⦃m : Movable A⦄ where
  pub new_queue : SpscTaskQueue A
  new_queue = record {
    buffer = replicate capacity m.default_value;
    head = 0;
    tail = 0;
    stop_flag = false;
  }

  pub push : A → SpscTaskQueue A → Bool × SpscTaskQueue A
  push task q =
      if q.stop_flag
      then (false, q)
      else if masked (add_size q.tail 1) == masked q.head
      then (false, q)
      else (true, record q { buffer = set q.buffer (masked q.tail) task; tail = add_size q.tail 1 })

  -- The slot keeps what the move leaves.
  pub pop : SpscTaskQueue A → Option A × SpscTaskQueue A
  pop q =
      if q.head == q.tail
      then (none, q)
      else let task = get_or q.buffer (masked q.head) m.default_value in
        (
          some task,
          record q {
            buffer = set q.buffer (masked q.head) (m.moved_from task);
            head = add_size q.head 1;
          },
        )

  -- The loop of `pop_batch`, with `rounds` equal to `max - count`.
  pub pop_batch_loop :
      (rounds count : ℕ) (batch : List A) → SpscTaskQueue A → ℕ × List A × SpscTaskQueue A
  pop_batch_loop zero count batch q = (count, batch, q)
  pop_batch_loop (suc rounds) count batch q =
      let r = pop q in
      elim r.0 [
        | none ↦ (count, batch, r.1)
        | some x ↦ pop_batch_loop rounds (count + 1) (batch ++ (x ∷ [])) r.1
      ]

  pub pop_batch : List A → ℕ → SpscTaskQueue A → ℕ × List A × SpscTaskQueue A
  pop_batch batch max q = pop_batch_loop max 0 batch q

module _ {A : Type 0} where
  pub size : SpscTaskQueue A → ℕ
  size q = sub_size q.tail q.head

  pub empty : SpscTaskQueue A → Bool
  unfolding size
  empty q = size q == 0

  pub shutdown : SpscTaskQueue A → SpscTaskQueue A
  shutdown q = record q { stop_flag = true }

-- The class as an `ITaskQueue`: no call of it waits.
abbrev pub spsc_task_queue : (A : Type 0) ⦃m : Movable A⦄ → ITaskQueue A
spsc_task_queue A = record {
  Q = SpscTaskQueue A;
  push = push;
  pop = λ q. returned (pop q);
  pop_batch = λ batch max q. returned (pop_batch batch max q);
  size = size;
  empty = empty;
  shutdown = shutdown;
}
