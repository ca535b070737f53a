-- ===== src/Queue/Spsc/Threads/Moves.antt =====
-- SPSCTaskQueue.hpp: each access of the producer and of the consumer keeps the invariant.
use lumen_engine.Prelude.{
  ℕ, ◌+◌, ◌%◌, ◌≤◌, ◌<◌, ◌≡◌, ◌≢◌, refl, sym, ◌∙◌, ap, false, none, List, [], ◌∷◌, ◌++◌, arith,
  length, get_elem?, get_or, set, length-append, length-set, get_elem?-set_self, get_elem?-set_ne,
  get_elem?-append_of_lt, get_elem?-append_end, get_elem?-eq-get_or, dec_lt, if_elim, ◌==◌,
  add_size,
}
use lumen_engine.Queue.Interface.{Movable}
use lumen_engine.Queue.Spsc.{SpscTaskQueue, capacity, masked}
use lumen_engine.Queue.Spsc.Threads.{
  Producer, Consumer, push_move, pop_move, log_publish, log_release,
}
use lumen_engine.Queue.Spsc.Threads.Inv.{Inv, ProducerOk, ConsumerOk, emptied}

module _ {A : Type 0} {q : SpscTaskQueue A} {p : Producer A} {c : Consumer A}
    {log delivered : List A} (h : Inv q p c log delivered) where
  pub with_producer :
      (p' : Producer A) → ProducerOk q (length log) (length delivered) p' → Inv q p' c log delivered
  with_producer p' ok = record {
    slots = h.slots;
    head_at = h.head_at;
    tail_at = h.tail_at;
    ordered = h.ordered;
    fits = h.fits;
    items = h.items;
    sound = h.sound;
    producer_ok = ok;
    consumer_ok = h.consumer_ok;
  }

  -- A consumer that holds no task taken out.
  pub with_consumer :
      (c' : Consumer A)
      → emptied c' ≡ emptied c
      → ConsumerOk q (length log) (length delivered) log c'
      → Inv q p c' log delivered
  with_consumer c' e ok = record {
    slots = h.slots;
    head_at = h.head_at;
    tail_at = h.tail_at;
    ordered = h.ordered;
    fits = h.fits;
    items = λ i l u. h.items i (omega arith) u;
    sound = h.sound;
    producer_ok = h.producer_ok;
    consumer_ok = ok;
  }

module _ {A : Type 0} ⦃m : Movable A⦄ where
  -- The producer's store to its slot, and to `tail`.
  ConsumerOk-tail :
      (q : SpscTaskQueue A) (c : Consumer A) (log : List A) (popped n : ℕ) (x : A)
      → ConsumerOk q (length log) popped log c
      → ConsumerOk (record q { tail = n }) (length (log ++ (x ∷ []))) popped (log ++ (x ∷ [])) c
  ConsumerOk-tail q Consumer.idle log popped n x ok = tt
  ConsumerOk-tail q Consumer.at_head log popped n x ok = tt
  ConsumerOk-tail q (Consumer.at_tail h) log popped n x ok = ok
  ConsumerOk-tail q (Consumer.at_data h) log popped n x ok =
      (ok.0, omega (arith, ok.1, length-append log (x ∷ [])))
  ConsumerOk-tail q (Consumer.at_release y h) log popped n x ok = (
    ok.0,
    omega (arith, ok.1, length-append log (x ∷ [])),
    get_elem?-append_of_lt log (x ∷ []) popped ok.1 ∙ ok.2,
  )
  ConsumerOk-tail q (Consumer.done o) log popped n x ok = tt

  ConsumerOk-buffer :
      (q : SpscTaskQueue A) (c : Consumer A) (log : List A) (pushed popped : ℕ) (buffer : List A)
      → ConsumerOk q pushed popped log c
      → ConsumerOk (record q { buffer = buffer }) pushed popped log c
  ConsumerOk-buffer q Consumer.idle log pushed popped buffer ok = tt
  ConsumerOk-buffer q Consumer.at_head log pushed popped buffer ok = tt
  ConsumerOk-buffer q (Consumer.at_tail h) log pushed popped buffer ok = ok
  ConsumerOk-buffer q (Consumer.at_data h) log pushed popped buffer ok = ok
  ConsumerOk-buffer q (Consumer.at_release y h) log pushed popped buffer ok = ok
  ConsumerOk-buffer q (Consumer.done o) log pushed popped buffer ok = tt

  published_items :
      {q : SpscTaskQueue A} {c : Consumer A} {log delivered : List A} (x : A) (t : ℕ)
      → Inv q (Producer.at_publish x t) c log delivered
      → (i : ℕ) → length delivered + emptied c ≤ i
      → i < length log + 1
      → get_elem? q.buffer (i % capacity) ≡ get_elem? (log ++ (x ∷ [])) i
  published_items {q} {c} {log} x t h i l u = elim (dec_lt i (length log)) [
    | yes old ↦ h.items i l old ∙ sym (get_elem?-append_of_lt log (x ∷ []) i old)
    | no new ↦
        let e : i ≡ length log = omega arith in
        ap (λ n. get_elem? q.buffer (n % capacity)) e
        ∙ h.producer_ok.2
        ∙ sym (get_elem?-append_end log x i e)
  ]

  pub push_move-Inv :
      (q : SpscTaskQueue A) (p : Producer A) (c : Consumer A) (log delivered : List A)
      → Inv q p c log delivered
      → Inv (push_move q p).0 (push_move q p).1 c (log_publish p log) delivered
  unfolding push_move
  push_move-Inv q Producer.idle c log delivered h = h
  push_move-Inv q (Producer.done b) c log delivered h = h
  push_move-Inv q (Producer.at_stop x) c log delivered h =
      with_producer h _
        (if_elim (ProducerOk q (length log) (length delivered)) q.stop_flag (λ _. tt) (λ _. tt))
  push_move-Inv q (Producer.at_tail x) c log delivered h = with_producer h _ refl
  push_move-Inv q (Producer.at_head x t) c log delivered h = with_producer h _ (
      if_elim (ProducerOk q (length log) (length delivered))
        (masked (add_size t 1) == masked q.head) (λ _. tt) (λ differ. (h.producer_ok, room differ)))
    where
      room :
          (masked (add_size t 1) == masked q.head) ≡ false
          → length log + 1 < length delivered + capacity
      room differ = ground arith
  push_move-Inv q (Producer.at_data x t) c log delivered h = record {
    slots = omega (arith, h.slots, length-set q.buffer (masked t) x);
    head_at = h.head_at;
    tail_at = h.tail_at;
    ordered = h.ordered;
    fits = h.fits;
    items = λ i l u.
        get_elem?-set_ne q.buffer (masked t) (i % capacity) x
          (omega (arith, h.producer_ok, h.tail_at, h.fits))
        ∙ h.items i l u;
    sound = h.sound;
    producer_ok = (
      h.producer_ok.0,
      h.producer_ok.1,
      ap (λ n. get_elem? (set q.buffer n x) (length log % capacity)) slot_eq
          ∙ get_elem?-set_self q.buffer (length log % capacity) x (omega (arith, h.slots)),
    );
    consumer_ok =
        ConsumerOk-buffer q c log (length log) (length delivered) (set q.buffer (masked t) x)
          h.consumer_ok;
  }
    where
      slot_eq : masked t ≡ length log % capacity
      slot_eq = omega (arith, h.producer_ok, h.tail_at)
  push_move-Inv q (Producer.at_publish x t) c log delivered h = record {
    slots = h.slots;
    head_at = h.head_at;
    tail_at = omega (arith, h.producer_ok, h.tail_at, length-append log (x ∷ []));
    ordered = omega (arith, h.ordered, length-append log (x ∷ []));
    fits = omega (arith, h.producer_ok, length-append log (x ∷ []));
    items = λ i l u. published_items x t h i l (omega (arith, length-append log (x ∷ [])));
    sound =
        λ i l. h.sound i l ∙ sym (get_elem?-append_of_lt log (x ∷ []) i (omega (arith, h.ordered)));
    producer_ok = tt;
    consumer_ok = ConsumerOk-tail q c log (length delivered) (add_size t 1) x h.consumer_ok;
  }

  -- The consumer's store to its slot, and to `head`.
  ProducerOk-buffer :
      (q : SpscTaskQueue A) (p : Producer A) (pushed popped slot : ℕ) (y : A)
      → slot ≢ pushed % capacity
      → ProducerOk q pushed popped p
      → ProducerOk (record q { buffer = set q.buffer slot y }) pushed popped p
  ProducerOk-buffer q Producer.idle pushed popped slot y apart ok = tt
  ProducerOk-buffer q (Producer.at_stop x) pushed popped slot y apart ok = tt
  ProducerOk-buffer q (Producer.at_tail x) pushed popped slot y apart ok = tt
  ProducerOk-buffer q (Producer.at_head x t) pushed popped slot y apart ok = ok
  ProducerOk-buffer q (Producer.at_data x t) pushed popped slot y apart ok = ok
  ProducerOk-buffer q (Producer.at_publish x t) pushed popped slot y apart ok =
      (ok.0, ok.1, get_elem?-set_ne q.buffer slot (pushed % capacity) y apart ∙ ok.2)
  ProducerOk-buffer q (Producer.done b) pushed popped slot y apart ok = tt

  ProducerOk-head :
      (q : SpscTaskQueue A) (p : Producer A) (pushed popped popped' n : ℕ)
      → popped ≤ popped'
      → ProducerOk q pushed popped p
      → ProducerOk (record q { head = n }) pushed popped' p
  ProducerOk-head q Producer.idle pushed popped popped' n le ok = tt
  ProducerOk-head q (Producer.at_stop x) pushed popped popped' n le ok = tt
  ProducerOk-head q (Producer.at_tail x) pushed popped popped' n le ok = tt
  ProducerOk-head q (Producer.at_head x t) pushed popped popped' n le ok = ok
  ProducerOk-head q (Producer.at_data x t) pushed popped popped' n le ok =
      (ok.0, omega (arith, ok.1))
  ProducerOk-head q (Producer.at_publish x t) pushed popped popped' n le ok =
      (ok.0, omega (arith, ok.1), ok.2)
  ProducerOk-head q (Producer.done b) pushed popped popped' n le ok = tt

  released_sound :
      {q : SpscTaskQueue A} {p : Producer A} {log delivered : List A} (x : A) (n : ℕ)
      → Inv q p (Consumer.at_release x n) log delivered
      → (i : ℕ) → i < length delivered + 1
      → get_elem? (delivered ++ (x ∷ [])) i ≡ get_elem? log i
  released_sound {log = log} {delivered} x n h i u = elim (dec_lt i (length delivered)) [
    | yes old ↦ get_elem?-append_of_lt delivered (x ∷ []) i old ∙ h.sound i old
    | no new ↦
        let e : i ≡ length delivered = omega arith in
        get_elem?-append_end delivered x i e ∙ sym h.consumer_ok.2 ∙ ap (get_elem? log) (sym e)
  ]

  pub pop_move-Inv :
      (q : SpscTaskQueue A) (p : Producer A) (c : Consumer A) (log delivered : List A)
      → Inv q p c log delivered
      → Inv (pop_move q c).0 p (pop_move q c).1 log (log_release c delivered)
  unfolding pop_move
  pop_move-Inv q p Consumer.idle log delivered h = h
  pop_move-Inv q p (Consumer.done o) log delivered h = h
  pop_move-Inv q p Consumer.at_head log delivered h =
      with_consumer h (Consumer.at_tail q.head) refl refl
  pop_move-Inv q p (Consumer.at_tail n) log delivered h =
      if_elim (λ c. Inv q p c log delivered) (n == q.tail)
        (λ _. with_consumer h (Consumer.done none) refl tt)
        (λ differ. with_consumer h (Consumer.at_data n) refl (h.consumer_ok, held differ))
    where
      held : (n == q.tail) ≡ false → length delivered < length log
      held differ = ground arith
  pop_move-Inv q p (Consumer.at_data n) log delivered h = record {
    slots = omega (arith, h.slots, length-set q.buffer (masked n) (m.moved_from task));
    head_at = h.head_at;
    tail_at = h.tail_at;
    ordered = h.ordered;
    fits = h.fits;
    items = λ i l u.
        get_elem?-set_ne q.buffer (masked n) (i % capacity) (m.moved_from task)
          (omega (arith, h.consumer_ok, h.head_at, h.fits))
        ∙ h.items i (omega arith) u;
    sound = h.sound;
    producer_ok =
        ProducerOk-buffer q p (length log) (length delivered) (masked n) (m.moved_from task)
          (omega (arith, slot_eq, h.consumer_ok, h.fits)) h.producer_ok;
    consumer_ok = (
      h.consumer_ok.0,
      h.consumer_ok.1,
      sym (h.items (length delivered) (omega arith) h.consumer_ok.1)
          ∙ ap (get_elem? q.buffer) (sym slot_eq)
          ∙ get_elem?-eq-get_or q.buffer (masked n) m.default_value (omega (arith, h.slots)),
    );
  }
    where
      task : A
      task = get_or q.buffer (masked n) m.default_value

      slot_eq : masked n ≡ length delivered % capacity
      slot_eq = omega (arith, h.consumer_ok, h.head_at)
  pop_move-Inv q p (Consumer.at_release x n) log delivered h = record {
    slots = h.slots;
    head_at = omega (arith, h.consumer_ok, h.head_at, length-append delivered (x ∷ []));
    tail_at = h.tail_at;
    ordered = omega (arith, h.consumer_ok, length-append delivered (x ∷ []));
    fits = omega (arith, h.fits, length-append delivered (x ∷ []));
    items = λ i l u. h.items i (omega (arith, length-append delivered (x ∷ []))) u;
    sound = λ i u. released_sound x n h i (omega (arith, length-append delivered (x ∷ [])));
    producer_ok =
        ProducerOk-head q p (length log) (length delivered) _ (add_size n 1)
          (omega (arith, length-append delivered (x ∷ []))) h.producer_ok;
    consumer_ok = tt;
  }
