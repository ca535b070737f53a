-- ===== src/Queue/Spsc/Threads/Inv.antt =====
-- The invariant of SPSCTaskQueue.hpp under one producer and one consumer.
use lumen_engine.Prelude.{ℕ, ◌+◌, ◌%◌, ◌≤◌, ◌<◌, ◌≡◌, List, some, length, get_elem?, word}
use lumen_engine.Queue.Spsc.{SpscTaskQueue, capacity}
use lumen_engine.Queue.Spsc.Threads.{Producer, Consumer}

-- Whether the consumer has emptied the first slot and not released it.
abbrev pub emptied : {A : Type 0} → Consumer A → ℕ
emptied (Consumer.at_release x h) = 1
emptied _ = 0

module _ {A : Type 0} (q : SpscTaskQueue A) (pushed popped : ℕ) where
  -- What the producer's locals say: once the test has passed there is room for one more.
  abbrev pub ProducerOk : Producer A → Type 0
  ProducerOk (Producer.at_head x t) = t ≡ q.tail
  ProducerOk (Producer.at_data x t) = (t ≡ q.tail) × (pushed + 1 < popped + capacity)
  ProducerOk (Producer.at_publish x t) =
      (t ≡ q.tail)
      × (pushed + 1 < popped + capacity)
      × (get_elem? q.buffer (pushed % capacity) ≡ some x)
  ProducerOk _ = Unit

  abbrev pub ConsumerOk : List A → Consumer A → Type 0
  ConsumerOk log (Consumer.at_tail h) = h ≡ q.head
  ConsumerOk log (Consumer.at_data h) = (h ≡ q.head) × (popped < pushed)
  ConsumerOk log (Consumer.at_release x h) =
      (h ≡ q.head) × (popped < pushed) × (get_elem? log popped ≡ some x)
  ConsumerOk log _ = Unit

-- The counters are the numbers of tasks published and released, modulo 2^64; a task that is
-- published and not yet moved out lies in the slot of its number.
pub record Inv {A : Type 0} (q : SpscTaskQueue A) (producer : Producer A) (consumer : Consumer A)
    (log delivered : List A) : Type 0 where
  pub slots : length q.buffer ≡ capacity
  pub head_at : q.head ≡ length delivered % word
  pub tail_at : q.tail ≡ length log % word
  pub ordered : length delivered ≤ length log
  pub fits : length log < length delivered + capacity
  pub items :
      (i : ℕ)
      → length delivered + emptied consumer ≤ i
      → i < length log
      → get_elem? q.buffer (i % capacity) ≡ get_elem? log i
  pub sound : (i : ℕ) → i < length delivered → get_elem? delivered i ≡ get_elem? log i
  pub producer_ok : ProducerOk q (length log) (length delivered) producer
  pub consumer_ok : ConsumerOk q (length log) (length delivered) log consumer
