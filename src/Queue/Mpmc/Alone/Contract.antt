-- ===== src/Queue/Mpmc/Alone/Contract.antt =====
-- MPMCTaskQueue.hpp, its calls not interrupted, against a bounded queue of at most 1024 tasks.
use lumen_engine.Prelude.{
  ℕ, zero, suc, ◌+◌, ◌^◌, ◌<◌, ◌≡◌, refl, sym, ap, ap₂, ◌∙◌, Bool, true, false, Option, none, some,
  not, ◌&&◌, List, [], ◌∷◌, ◌++◌, append-nil, append_assoc, arith, length, length-append, take,
  drop, min, ltb, dec_lt, Bool-cases, inl, inr,
}
use lumen_engine.Queue.Interface.{Movable, returned}
use lumen_engine.Queue.Fifo.{Policy, Fifo, SamePop, SameBatch}
use lumen_engine.Queue.Fifo
use lumen_engine.Queue.Client.{Call, run, fifo_task_queue}
use lumen_engine.Queue.Mpmc.{
  capacity, MpmcTaskQueue, masked, new_queue, cell_at, write_cell, size_of, shutdown,
}
use lumen_engine.Queue.Mpmc.Reach.{length-cells_from, cells_from-get_zero}
use lumen_engine.Queue.Mpmc.Alone.{push, pop, pop_batch_loop, pop_batch, size, run_calls}
use lumen_engine.Queue.Mpmc.Alone.Ring.{Rings, push_stopped}
use lumen_engine.Queue.Mpmc.Alone.Steps.{push-Rings, push_refused, pop-Rings, pop_refused}

-- A push is taken unless the queue is stopped or full, and no call waits.
abbrev pub mpmc_policy : Policy
mpmc_policy = record { accepts = λ stopped n. not stopped && ltb n capacity; waits = false }

abbrev first : {A : Type 0} → List A → Option A
first [] = none
first (x ∷ xs) = some x

module _ {A : Type 0} ⦃m : Movable A⦄ where
  -- The queue stands for the specification's state, and its tickets stay below 2^62 for another
  -- `n` pushes.
  abbrev pub Represents : (n : ℕ) → MpmcTaskQueue A → Fifo A → Type 0
  Represents n q f =
      (start : ℕ) × Rings q start f.items
      × (start + length f.items + n < 2 ^ 62)
      × (q.stop_flag ≡ f.stopped)

  push_refines :
      (n : ℕ) (x : A) (q : MpmcTaskQueue A) (f : Fifo A)
      → Represents (suc n) q f
      → (q' : MpmcTaskQueue A) × (push x q ≡ some ((Fifo.push mpmc_policy x f).0, q'))
        × Represents n q' (Fifo.push mpmc_policy x f).1
  unfolding write_cell
  push_refines n x q f (start, r, few, stop) = elim (Bool-cases f.stopped) [
    | inl stopped ↦
        rw (Fifo.push_denied mpmc_policy x f (rw stopped refl))
          (q, push_stopped x q (stop ∙ stopped), (start, r, omega arith, stop))
    | inr running ↦ elim (dec_lt (length f.items) capacity) [
      | yes room ↦
          let (goes, r') = push-Rings x q start f.items r (omega arith) room (stop ∙ running) in
          rw (Fifo.push_taken mpmc_policy x f (ground (arith, running)))
            (_, goes, (start, r', omega (arith, length-append f.items (x ∷ [])), stop))
      | no full ↦ rw (Fifo.push_denied mpmc_policy x f (ground (arith, running))) (
        q,
        push_refused x q start f.items r (omega arith) (omega (arith, r.fits)) (stop ∙ running),
        (start, r, omega arith, stop),
      )
    ]
  ]

  -- A pop ends with the oldest task, or with none.
  pop_refines :
      (n : ℕ) (q : MpmcTaskQueue A) (xs : List A) (stopped : Bool)
      → Represents n q (record { items = xs; stopped = stopped })
      → (q' : MpmcTaskQueue A) × (pop q ≡ some (first xs, q'))
        × Represents n q' (record { items = drop 1 xs; stopped = stopped })
        × (Fifo.pop_items mpmc_policy xs stopped
            ≡ returned (first xs, record { items = drop 1 xs; stopped = stopped }))
  unfolding Fifo.pop_items write_cell
  pop_refines n q [] stopped (start, r, few, stop) =
      (q, pop_refused q start r (omega arith), (start, r, few, stop), refl)
  pop_refines n q (x ∷ xs) stopped (start, r, few, stop) =
      let (goes, r') = pop-Rings q start x xs r (omega arith) in
      (_, goes, (start + 1, r', omega arith, stop), refl)

  pop_batch_loop_refines :
      (n rounds count : ℕ) (batch xs : List A) (q : MpmcTaskQueue A) (stopped : Bool)
      → Represents n q (record { items = xs; stopped = stopped })
      → (q' : MpmcTaskQueue A) × (pop_batch_loop rounds count batch q
          ≡ some (count + min rounds (length xs), batch ++ take rounds xs, q'))
        × Represents n q' (record { items = drop rounds xs; stopped = stopped })
  unfolding pop_batch_loop write_cell
  pop_batch_loop_refines n zero count batch xs q stopped h =
      (q, ap₂ (λ c b. some (c, b, q)) (omega arith) (sym (append-nil batch)), h)
  pop_batch_loop_refines n (suc rounds) count batch [] q stopped (start, r, few, stop) = (
    q,
    rw (pop_refused q start r (omega arith), pop_batch_loop)
        (ap₂ (λ c b. some (c, b, q)) (omega arith) (sym (append-nil batch))),
    (start, r, few, stop),
  )
  pop_batch_loop_refines n (suc rounds) count batch (x ∷ xs) q stopped (start, r, few, stop) =
      let (goes, r') = pop-Rings q start x xs r (omega arith) in
      let (q', ran, h') =
        pop_batch_loop_refines n rounds (count + 1) (batch ++ (x ∷ [])) xs _ stopped
          (start + 1, r', omega arith, stop) in
      (
        q',
        rw (goes, pop_batch_loop)
            (ran
              ∙ ap₂ (λ c b. some (c, b, q')) (omega arith)
                  (append_assoc batch (x ∷ []) (take rounds xs))),
        h',
      )

  size_refines :
      (n : ℕ) (q : MpmcTaskQueue A) (f : Fifo A) → Represents n q f → size q ≡ length f.items
  unfolding size_of
  size_refines n q f (start, r, few, stop) = ground (arith, r.head_at, r.tail_at)

  shutdown_refines :
      (n : ℕ) (q : MpmcTaskQueue A) (f : Fifo A)
      → Represents n q f
      → Represents n (shutdown q) (record f { stopped = true })
  unfolding shutdown cell_at
  shutdown_refines n q f (start, r, few, stop) = (
    start,
    record {
      slots = r.slots;
      head_at = r.head_at;
      tail_at = r.tail_at;
      fits = r.fits;
      held = r.held;
      free = r.free;
    },
    few,
    refl,
  )

  -- The pushes among some calls.
  unfoldable pub pushes : List (Call A) → ℕ
  pushes [] = 0
  pushes (Call.push x ∷ calls) = suc (pushes calls)
  pushes (Call.pop ∷ calls) = pushes calls
  pushes (Call.pop_batch batch max ∷ calls) = pushes calls
  pushes (Call.size ∷ calls) = pushes calls
  pushes (Call.empty ∷ calls) = pushes calls
  pushes (Call.shutdown ∷ calls) = pushes calls

  run_refines :
      (calls : List (Call A)) (q : MpmcTaskQueue A) (f : Fifo A)
      → Represents (pushes calls) q f
      → run_calls q calls ≡ some (run (fifo_task_queue A mpmc_policy) f calls)
  unfolding run run_calls pushes Fifo.pop pop_batch Fifo.pop_batch
  run_refines [] q f h = refl
  run_refines (Call.push x ∷ calls) q f h =
      let (q', ended, h') = push_refines (pushes calls) x q f h in
      rw (ended, run_calls) (rw (run_refines calls q' _ h') refl)
  run_refines (Call.pop ∷ calls) q f h =
      let (q', ended, h', spec) = pop_refines (pushes calls) q f.items f.stopped h in
      rw (ended, run_calls) (rw (spec, run) (rw (run_refines calls q' _ h') refl))
  run_refines (Call.pop_batch batch max ∷ calls) q f h =
      let (q', ended, h') =
        pop_batch_loop_refines (pushes calls) max 0 batch f.items q f.stopped h in
      let same : 0 + min max (length f.items) ≡ min max (length f.items) = omega arith in
      let counted = ended ∙ ap (λ c. some (c, batch ++ take max f.items, q')) same in
      rw (counted, run_calls) (rw (run_refines calls q' _ h') refl)
  run_refines (Call.size ∷ calls) q f h =
      rw (run_refines calls q f h) (rw (size_refines (pushes calls) q f h) refl)
  run_refines (Call.empty ∷ calls) q f h =
      rw (run_refines calls q f h) (rw (size_refines (pushes calls) q f h) refl)
  run_refines (Call.shutdown ∷ calls) q f h =
      rw (run_refines calls _ _ (shutdown_refines (pushes calls) q f h)) refl

  new_queue-Represents :
      (n : ℕ)
      → n < 2 ^ 62
      → Represents n (new_queue {A = A}) (record { items = []; stopped = false })
  unfolding new_queue cell_at
  new_queue-Represents n few = (
    0,
    record {
      slots = length-cells_from m.default_value capacity 0;
      head_at = refl;
      tail_at = refl;
      fits = omega arith;
      held = λ i l. elim l [ ];
      free = λ i l u.
          cells_from-get_zero m.default_value _ capacity (masked (0 + i)) (omega arith)
          ∙ omega arith;
    },
    omega arith,
    refl,
  )

  -- From the new queue, every sequence of uninterrupted calls with fewer than 2^62 pushes, batches
  -- and size queries included, comes to its end: every push within six accesses and every pop
  -- within five, none of which waits. It returns what a first-in first-out queue returns that takes
  -- a task exactly when it is not stopped and holds fewer than 1024.
  pub mpmc_run :
      (calls : List (Call A))
      → pushes calls < 2 ^ 62
      → run_calls new_queue calls
        ≡ some (run (fifo_task_queue A mpmc_policy) (record { items = []; stopped = false }) calls)
  mpmc_run calls few = run_refines calls new_queue _ (new_queue-Represents (pushes calls) few)
