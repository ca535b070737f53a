-- ===== src/Queue/Spsc/Threads/Safety.antt =====
-- SPSCTaskQueue.hpp: what holds however the producer and the consumer interleave.
use lumen_engine.Prelude.{
  suc, List, [], ◌∷◌, none, some, ℕ, ◌+◌, ◌-◌, take, ap₂, ◌≤◌, ◌<◌, ◌≡◌, ◌≢◌, refl, sym, ◌∙◌, ap,
  subst, [], arith, length, get_elem?, length-replicate, if_elim, ◌==◌, add_size,
}
use lumen_engine.Queue.Interface.{Movable}
use lumen_engine.Queue.Spsc.{SpscTaskQueue, capacity, masked, new_queue, shutdown}
use lumen_engine.Queue.Spsc.Threads.{
  Threads, Producer, Consumer, push_move, pop_move, produce, consume, Step, Reach, start, later,
  call_push, call_pop, produced, consumed, return_push, return_pop, call_shutdown,
}
use lumen_engine.Queue.Spsc.Threads.Inv.{Inv, ProducerOk, ConsumerOk, emptied}
use lumen_engine.Queue.Spsc.Threads.Moves.{
  with_producer, with_consumer, push_move-Inv, pop_move-Inv,
}

-- A list is the beginning of another if it agrees with it.
take_of :
    {A : Type 0} (xs ys : List A)
    → length xs ≤ length ys
    → ((i : ℕ) → i < length xs → get_elem? xs i ≡ get_elem? ys i)
    → xs ≡ take (length xs) ys
take_of [] ys le same = refl
take_of (x ∷ xs) [] le same = absurd (omega arith)
take_of (x ∷ xs) (y ∷ ys) le same =
    ap₂ (λ z zs. z ∷ zs) (ap (λ o. elim o [ none ↦ x | some z ↦ z ]) (same 0 (omega arith)))
      (take_of xs ys (omega arith) (λ i l. same (suc i) (omega arith)))

module _ {A : Type 0} ⦃m : Movable A⦄ where
  abbrev IsGood : Threads A → Type 0
  IsGood s = Inv s.queue s.producer s.consumer s.log s.delivered

  new_queue-Inv : Inv (new_queue {A = A}) Producer.idle Consumer.idle [] []
  unfolding new_queue
  new_queue-Inv = record {
    slots = length-replicate capacity m.default_value;
    head_at = refl;
    tail_at = refl;
    ordered = omega arith;
    fits = omega arith;
    items = λ i l u. elim u [ ];
    sound = λ i u. elim u [ ];
    producer_ok = tt;
    consumer_ok = tt;
  }

  idle_again :
      (s : Threads A) (c : Consumer A)
      → IsGood s
      → emptied s.consumer ≡ 0
      → emptied c ≡ 0
      → ConsumerOk s.queue (length s.log) (length s.delivered) s.log c
      → IsGood (record s { consumer = c })
  idle_again s c h before after ok = with_consumer h c (after ∙ sym before) ok

  shutdown-Inv : (s : Threads A) → IsGood s → IsGood (record s { queue = shutdown s.queue })
  unfolding shutdown
  shutdown-Inv s h = record {
    slots = h.slots;
    head_at = h.head_at;
    tail_at = h.tail_at;
    ordered = h.ordered;
    fits = h.fits;
    items = h.items;
    sound = h.sound;
    producer_ok = same_producer s.producer h.producer_ok;
    consumer_ok = same_consumer s.consumer h.consumer_ok;
  }
    where
      same_producer :
          (p : Producer A)
          → ProducerOk s.queue (length s.log) (length s.delivered) p
          → ProducerOk (shutdown s.queue) (length s.log) (length s.delivered) p
      same_producer Producer.idle ok = tt
      same_producer (Producer.at_stop x) ok = tt
      same_producer (Producer.at_tail x) ok = tt
      same_producer (Producer.at_head x t) ok = ok
      same_producer (Producer.at_data x t) ok = ok
      same_producer (Producer.at_publish x t) ok = ok
      same_producer (Producer.done b) ok = tt

      same_consumer :
          (c : Consumer A)
          → ConsumerOk s.queue (length s.log) (length s.delivered) s.log c
          → ConsumerOk (shutdown s.queue) (length s.log) (length s.delivered) s.log c
      same_consumer Consumer.idle ok = tt
      same_consumer Consumer.at_head ok = tt
      same_consumer (Consumer.at_tail n) ok = ok
      same_consumer (Consumer.at_data n) ok = ok
      same_consumer (Consumer.at_release x n) ok = ok
      same_consumer (Consumer.done o) ok = tt

  Step-Inv : {s t : Threads A} → IsGood s → Step s t → IsGood t
  unfolding produce consume
  Step-Inv h (call_push x e) = with_producer h (Producer.at_stop x) tt
  Step-Inv {s} h (call_pop e) = idle_again s Consumer.at_head h (ap emptied e) refl tt
  Step-Inv {s} h produced = push_move-Inv s.queue s.producer s.consumer s.log s.delivered h
  Step-Inv {s} h consumed = pop_move-Inv s.queue s.producer s.consumer s.log s.delivered h
  Step-Inv h (return_push b e) = with_producer h Producer.idle tt
  Step-Inv {s} h (return_pop o e) = idle_again s Consumer.idle h (ap emptied e) refl tt
  Step-Inv {s} h call_shutdown = shutdown-Inv s h

  pub reach-Inv : {s : Threads A} → Reach s → IsGood s
  reach-Inv start = new_queue-Inv
  reach-Inv (later r step) = Step-Inv (reach-Inv r) step

  -- However one producer's pushes, one consumer's pops and the shutdown interleave, access by
  -- access, and also after the counters have wrapped round 2^64: the tasks handed out are the tasks
  -- published, in order, without a gap and each once, and of those published at most 1023 have not
  -- been handed out.
  pub delivered_in_order :
      {s : Threads A}
      → Reach s
      → (s.delivered ≡ take (length s.delivered) s.log)
        × (length s.delivered ≤ length s.log)
        × (length s.log ≤ length s.delivered + 1023)
  delivered_in_order {s} r =
      let h = reach-Inv r in
      (take_of s.delivered s.log h.ordered h.sound, h.ordered, omega (arith, h.fits))

  -- The producer and the consumer never access the same slot of the buffer at the same time: when
  -- the one is about to write its task and the other is about to move one out, the slots differ.
  pub no_slot_race :
      {s : Threads A} (x : A) (t h : ℕ)
      → Reach s
      → s.producer ≡ Producer.at_data x t
      → s.consumer ≡ Consumer.at_data h
      → masked t ≢ masked h
  no_slot_race {s} x t h r at_t at_h =
      let inv = reach-Inv r in
      let p : ProducerOk s.queue (length s.log) (length s.delivered) (Producer.at_data x t) =
        subst (ProducerOk s.queue (length s.log) (length s.delivered)) at_t inv.producer_ok in
      let c : ConsumerOk s.queue (length s.log) (length s.delivered) s.log (Consumer.at_data h) =
        subst (ConsumerOk s.queue (length s.log) (length s.delivered) s.log) at_h inv.consumer_ok in
      omega (arith, p, c, inv.head_at, inv.tail_at)

  -- The accesses that are left of a call, at most.
  abbrev pub accesses_of_push : Producer A → ℕ
  accesses_of_push (Producer.at_stop x) = 5
  accesses_of_push (Producer.at_tail x) = 4
  accesses_of_push (Producer.at_head x t) = 3
  accesses_of_push (Producer.at_data x t) = 2
  accesses_of_push (Producer.at_publish x t) = 1
  accesses_of_push _ = 0

  abbrev pub accesses_of_pop : Consumer A → ℕ
  accesses_of_pop Consumer.at_head = 4
  accesses_of_pop (Consumer.at_tail h) = 3
  accesses_of_pop (Consumer.at_data h) = 2
  accesses_of_pop (Consumer.at_release x h) = 1
  accesses_of_pop _ = 0

  push_accesses :
      (q : SpscTaskQueue A) (p : Producer A)
      → accesses_of_push (push_move q p).1 ≤ accesses_of_push p - 1
  unfolding push_move
  push_accesses q Producer.idle = omega arith
  push_accesses q (Producer.at_stop x) =
      if_elim (λ p. accesses_of_push p ≤ 4) q.stop_flag (λ _. omega arith) (λ _. omega arith)
  push_accesses q (Producer.at_tail x) = omega arith
  push_accesses q (Producer.at_head x t) =
      if_elim (λ p. accesses_of_push p ≤ 2) (masked (add_size t 1) == masked q.head)
        (λ _. omega arith) (λ _. omega arith)
  push_accesses q (Producer.at_data x t) = omega arith
  push_accesses q (Producer.at_publish x t) = omega arith
  push_accesses q (Producer.done b) = omega arith

  pop_accesses :
      (q : SpscTaskQueue A) (c : Consumer A)
      → accesses_of_pop (pop_move q c).1 ≤ accesses_of_pop c - 1
  unfolding pop_move
  pop_accesses q Consumer.idle = omega arith
  pop_accesses q Consumer.at_head = omega arith
  pop_accesses q (Consumer.at_tail n) =
      if_elim (λ c. accesses_of_pop c ≤ 2) (n == q.tail) (λ _. omega arith) (λ _. omega arith)
  pop_accesses q (Consumer.at_data n) = omega arith
  pop_accesses q (Consumer.at_release x n) = omega arith
  pop_accesses q (Consumer.done o) = omega arith

  -- No call waits for the other thread: each access of a `push` or a `pop` that is under way lowers
  -- the number of accesses left of it, in any state of the queue, and so a push ends after at most
  -- five accesses of its own and a pop after at most four.
  pub accesses_lem :
      (q : SpscTaskQueue A) (p : Producer A) (c : Consumer A)
      → (accesses_of_push (push_move q p).1 ≤ accesses_of_push p - 1)
        × (accesses_of_pop (pop_move q c).1 ≤ accesses_of_pop c - 1)
        × (accesses_of_push p ≤ 5)
        × (accesses_of_pop c ≤ 4)
  accesses_lem q p c = (push_accesses q p, pop_accesses q c, most_of_push p, most_of_pop c)
    where
      most_of_push : (p : Producer A) → accesses_of_push p ≤ 5
      most_of_push Producer.idle = omega arith
      most_of_push (Producer.at_stop x) = omega arith
      most_of_push (Producer.at_tail x) = omega arith
      most_of_push (Producer.at_head x t) = omega arith
      most_of_push (Producer.at_data x t) = omega arith
      most_of_push (Producer.at_publish x t) = omega arith
      most_of_push (Producer.done b) = omega arith

      most_of_pop : (c : Consumer A) → accesses_of_pop c ≤ 4
      most_of_pop Consumer.idle = omega arith
      most_of_pop Consumer.at_head = omega arith
      most_of_pop (Consumer.at_tail h) = omega arith
      most_of_pop (Consumer.at_data h) = omega arith
      most_of_pop (Consumer.at_release x h) = omega arith
      most_of_pop (Consumer.done o) = omega arith
