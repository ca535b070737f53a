-- ===== src/Queue/Spsc/Threads.antt =====
-- SPSCTaskQueue.hpp: one producer that runs `push` and one consumer that runs `pop`, one shared
-- access at a time, in any order. The atomics are taken as sequentially consistent.
pub mod Inv
pub mod Moves
pub mod Safety
mod Tests
use lumen_engine.Prelude.{
  ℕ, ◌≡◌, Bool, true, false, Option, none, some, List, [], ◌∷◌, ◌++◌, if◌then◌else◌, ◌==◌, get_or,
  set, add_size,
}
use lumen_engine.Queue.Interface.{Movable}
use lumen_engine.Queue.Spsc.{SpscTaskQueue, masked, new_queue, shutdown}

-- Where the producer stands in `push`, with its live locals.
pub data Producer (A : Type 0) : Type 0 where
  idle : Producer A
  at_stop : A → Producer A  -- before `stop_flag.load`
  at_tail : A → Producer A  -- before `t = tail.load`
  at_head : A → ℕ → Producer A  -- before `h = head.load`, and the test
  at_data : A → ℕ → Producer A  -- before `buffer[t & Mask] = task`
  at_publish : A → ℕ → Producer A  -- before `tail.store`; the task is there for the log only
  done : Bool → Producer A

-- Where the consumer stands in `pop`.
pub data Consumer (A : Type 0) : Type 0 where
  idle : Consumer A
  at_head : Consumer A
  at_tail : ℕ → Consumer A  -- before `t = tail.load`, and the test
  at_data : ℕ → Consumer A  -- before the move out of `buffer[h & Mask]`
  at_release : A → ℕ → Consumer A  -- before `head.store`
  done : Option A → Consumer A

module _ {A : Type 0} ⦃m : Movable A⦄ where
  unfoldable pub push_move : SpscTaskQueue A → Producer A → SpscTaskQueue A × Producer A
  push_move q (Producer.at_stop x) =
      (q, if q.stop_flag then Producer.done false else Producer.at_tail x)
  push_move q (Producer.at_tail x) = (q, Producer.at_head x q.tail)
  push_move q (Producer.at_head x t) = (
    q,
    if masked (add_size t 1) == masked q.head then Producer.done false else Producer.at_data x t,
  )
  push_move q (Producer.at_data x t) =
      (record q { buffer = set q.buffer (masked t) x }, Producer.at_publish x t)
  push_move q (Producer.at_publish x t) = (record q { tail = add_size t 1 }, Producer.done true)
  push_move q pc = (q, pc)

  unfoldable pub pop_move : SpscTaskQueue A → Consumer A → SpscTaskQueue A × Consumer A
  pop_move q Consumer.at_head = (q, Consumer.at_tail q.head)
  pop_move q (Consumer.at_tail h) =
      (q, if h == q.tail then Consumer.done none else Consumer.at_data h)
  pop_move q (Consumer.at_data h) =
      let task = get_or q.buffer (masked h) m.default_value in
      (
        record q { buffer = set q.buffer (masked h) (m.moved_from task) },
        Consumer.at_release task h,
      )
  pop_move q (Consumer.at_release x h) = (record q { head = add_size h 1 }, Consumer.done (some x))
  pop_move q pc = (q, pc)

-- `log` and `delivered` are no part of the program: the tasks published by a store of `tail`, and
-- those handed out by a store of `head`, each in order.
pub record Threads (A : Type 0) : Type 0 where
  pub queue : SpscTaskQueue A
  pub producer : Producer A
  pub consumer : Consumer A
  pub log : List A
  pub delivered : List A

abbrev pub log_publish : {A : Type 0} → Producer A → List A → List A
log_publish (Producer.at_publish x t) log = log ++ (x ∷ [])
log_publish _ log = log

abbrev pub log_release : {A : Type 0} → Consumer A → List A → List A
log_release (Consumer.at_release x h) delivered = delivered ++ (x ∷ [])
log_release _ delivered = delivered

module _ {A : Type 0} ⦃m : Movable A⦄ where
  -- The next access of the producer, and of the consumer.
  unfoldable pub produce : Threads A → Threads A
  produce s =
      let r = push_move s.queue s.producer in
      record s { queue = r.0; producer = r.1; log = log_publish s.producer s.log }

  unfoldable pub consume : Threads A → Threads A
  consume s =
      let r = pop_move s.queue s.consumer in
      record s { queue = r.0; consumer = r.1; delivered = log_release s.consumer s.delivered }

  pub data Step (s : Threads A) : Threads A → Type 0 where
    call_push :
        (x : A) → s.producer ≡ Producer.idle → Step s (record s { producer = Producer.at_stop x })
    call_pop : s.consumer ≡ Consumer.idle → Step s (record s { consumer = Consumer.at_head })
    produced : Step s (produce s)
    consumed : Step s (consume s)
    return_push :
        (b : Bool) → s.producer ≡ Producer.done b → Step s (record s { producer = Producer.idle })
    return_pop :
        (o : Option A)
        → s.consumer ≡ Consumer.done o
        → Step s (record s { consumer = Consumer.idle })
    call_shutdown : Step s (record s { queue = shutdown s.queue })

  abbrev pub init : Threads A
  init = record {
    queue = new_queue;
    producer = Producer.idle;
    consumer = Consumer.idle;
    log = [];
    delivered = [];
  }

  pub data Reach : Threads A → Type 0 where
    start : Reach init
    later : {s t : Threads A} → Reach s → Step s t → Reach t
