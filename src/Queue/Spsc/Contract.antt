-- ===== src/Queue/Spsc/Contract.antt =====
-- The methods of SPSCTaskQueue.hpp against a queue of at most 1023 tasks.
use lumen_engine.Prelude.{
  ℕ, ◌+◌, ◌≡◌, refl, ◌∙◌, ap, ◌⊎◌, inl, inr, Bool, true, false, not, ◌&&◌, List, [], ◌∷◌, arith,
  length, ltb, ◌==◌, Bool-cases,
}
use lumen_engine.Queue.Interface.{Movable, returned}
use lumen_engine.Queue.Fifo.{Policy, Fifo, SamePop, SameBatch, Implements}
use lumen_engine.Queue.Fifo
use lumen_engine.Queue.Client.{Call, run, fifo_task_queue, run_refines}
use lumen_engine.Queue.Spsc.{
  capacity, SpscTaskQueue, new_queue, push, pop, pop_batch, size, empty, shutdown, spsc_task_queue,
}
use lumen_engine.Queue.Spsc.Refine.{
  Holds, new_queue-Holds, push-Holds, push_refused, pop-Holds, pop-Holds_nil, size-Holds,
}
use lumen_engine.Queue.Spsc.Batch.{pop_batch_loop-Drained}

-- One of the 1024 slots stays free, and a stopped queue refuses.
abbrev pub spsc_policy : Policy
spsc_policy = record { accepts = λ stopped n. not stopped && ltb (n + 1) capacity; waits = false }

-- The state of the class and the list that it stands for, after some number of pops.
abbrev pub Represents : {A : Type 0} → SpscTaskQueue A → Fifo A → Type 0
Represents q f = (start : ℕ) × Holds q start f.items × (q.stop_flag ≡ f.stopped)

module _ {A : Type 0} ⦃m : Movable A⦄ where
  refusal :
      {q : SpscTaskQueue A} {start : ℕ} {f : Fifo A}
      → Holds q start f.items
      → q.stop_flag ≡ f.stopped
      → spsc_policy.accepts f.stopped (length f.items) ≡ false
      → (q.stop_flag ≡ true) ⊎ (length f.items + 1 ≡ capacity)
  refusal h s denied = ground arith

  pub push_refines :
      (x : A) (q : SpscTaskQueue A) (f : Fifo A)
      → Represents q f
      → ((push x q).0 ≡ (Fifo.push spsc_policy x f).0)
        × Represents (push x q).1 (Fifo.push spsc_policy x f).1
  push_refines x q f (start, h, s) =
      elim (Bool-cases (spsc_policy.accepts f.stopped (length f.items))) [
        | inl taken ↦
            let (r, e, h', s') = push-Holds x h (ground arith) (ground arith) in
            rw (e, Fifo.push_taken spsc_policy x f taken) (refl, (start, h', ground arith))
        | inr denied ↦
            rw (push_refused x h (refusal h s denied), Fifo.push_denied spsc_policy x f denied)
              (refl, (start, h, s))
      ]

  pub pop_refines :
      (q : SpscTaskQueue A) (xs : List A) (stopped : Bool)
      → Represents q (record { items = xs; stopped = stopped })
      → SamePop Represents (returned (pop q)) (Fifo.pop_items spsc_policy xs stopped)
  unfolding Fifo.pop_items
  pop_refines q [] stopped (start, h, s) = rw (pop-Holds_nil h) (refl, (start, h, s))
  pop_refines q (x ∷ xs) stopped (start, h, s) =
      let (r, e, h', s') = pop-Holds x xs h in rw e (refl, (start + 1, h', s' ∙ s))

  pub pop_batch_refines :
      (batch : List A) (max : ℕ) (q : SpscTaskQueue A) (f : Fifo A)
      → Represents q f
      → SameBatch Represents
          (returned (pop_batch batch max q))
          (Fifo.pop_batch spsc_policy batch max f)
  unfolding Fifo.pop_batch pop_batch
  pop_batch_refines batch max q f (start, h, s) =
      let d = pop_batch_loop-Drained max 0 batch f.items h in
      (omega (arith, d.counted), d.appended, (d.start, d.left, d.flag ∙ s))

  pub size_refines : (q : SpscTaskQueue A) (f : Fifo A) → Represents q f → size q ≡ length f.items
  size_refines q f (start, h, s) = size-Holds h

  pub empty_refines :
      (q : SpscTaskQueue A) (f : Fifo A) → Represents q f → empty q ≡ (length f.items == 0)
  unfolding empty
  empty_refines q f (start, h, s) = ap (λ n. n == 0) (size-Holds h)

  pub shutdown_refines :
      (q : SpscTaskQueue A) (f : Fifo A)
      → Represents q f
      → Represents (shutdown q) (record f { stopped = true })
  unfolding shutdown
  shutdown_refines q f (start, h, s) = (
    start,
    record {
      slots = h.slots;
      head_at = h.head_at;
      tail_at = h.tail_at;
      fits = h.fits;
      items = h.items;
    },
    refl,
  )

  pub spsc_implements : Implements (spsc_task_queue A) spsc_policy
  unfolding Fifo.pop
  spsc_implements = record {
    Represents = Represents;
    push_refines = push_refines;
    pop_refines = λ q f. pop_refines q f.items f.stopped;
    pop_batch_refines = pop_batch_refines;
    size_refines = size_refines;
    empty_refines = empty_refines;
    shutdown_refines = shutdown_refines;
  }

  -- The single-producer queue, each call uninterrupted, is a first-in first-out queue that takes a
  -- task exactly when it is not stopped and holds fewer than 1023, and never waits: from the new
  -- queue, every sequence of calls of its methods, batches and size queries included, returns what
  -- the specification returns, also after the counters have wrapped round 2^64.
  pub spsc_run :
      (calls : List (Call A))
      → run (spsc_task_queue A) new_queue calls
        ≡ run (fifo_task_queue A spsc_policy) (record { items = []; stopped = false }) calls
  unfolding spsc_implements new_queue
  spsc_run calls = run_refines spsc_implements calls new_queue _ (0, new_queue-Holds, refl)
