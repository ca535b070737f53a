-- ===== src/Queue/Interface.antt =====
-- include/lumen/interfaces/ITaskQueue.hpp: the operations of a task queue.
use lumen_engine.Prelude.{ℕ, Bool, List, Option}

-- What a queue needs of the element type: its default constructor, and what a move leaves behind.
pub record Movable (A : Type 0) : Type 0 where
  pub default_value : A
  pub moved_from : A → A

-- A call that can wait on the condition variable: it blocks in this state, or it returns.
pub data Blocking (A : Type 0) : Type 0 where
  blocked : Blocking A
  returned : A → Blocking A

-- The virtual functions. An operation that changes the queue returns the new queue last;
-- `pop_batch batch max q` returns the count and the batch with the tasks appended.
pub record ITaskQueue (A : Type 0) : Type 1 where
  pub Q : Type 0
  pub push : A → Q → Bool × Q
  pub pop : Q → Blocking (Option A × Q)
  pub pop_batch : List A → ℕ → Q → Blocking (ℕ × List A × Q)
  pub size : Q → ℕ
  pub empty : Q → Bool
  pub shutdown : Q → Q
