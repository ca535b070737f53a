-- ===== src/Queue/Naive/Contract.antt =====
-- NaiveTaskQueue.hpp against an unbounded queue whose consumers wait.
use lumen_engine.Prelude.{
  ℕ, zero, suc, ◌+◌, ◌≡◌, refl, ◌∙◌, sym, ap, subst, Bool, true, false, List, [], ◌∷◌, ◌++◌,
  append-nil, append_assoc, arith, length, take, drop, min, ◌==◌, take-nil, drop-nil,
}
use lumen_engine.Queue.Fifo.{Policy, Fifo, SamePop, SameBatch, Implements}
use lumen_engine.Queue.Fifo
use lumen_engine.Queue.Client.{Call, run, fifo_task_queue, run_refines}
use lumen_engine.Queue.Naive.{
  NaiveTaskQueue, push, pop, pop_batch_loop, pop_batch, size, empty, shutdown, naive_task_queue,
}

-- Every push is taken, also after `shutdown`.
abbrev pub naive_policy : Policy
naive_policy = record { accepts = λ stopped n. true; waits = true }

-- The specification's state that a queue stands for.
abbrev pub view : {A : Type 0} → NaiveTaskQueue A → Fifo A
view q = record { items = q.items; stopped = q.stop }

abbrev pub Represents : {A : Type 0} → NaiveTaskQueue A → Fifo A → Type 0
Represents q f = view q ≡ f

suc_eq_zero : (n : ℕ) → (suc n == 0) ≡ false
suc_eq_zero n = ground arith

module _ {A : Type 0} where
  pub pop_batch_loop_lem :
      (rounds count : ℕ) (batch xs : List A) (stop : Bool)
      → pop_batch_loop rounds count batch xs stop ≡ (
        count + min rounds (length xs),
        batch ++ take rounds xs,
        record { items = drop rounds xs; stop = stop },
      )
  unfolding pop_batch_loop
  pop_batch_loop_lem zero count batch xs stop = ground (arith, append-nil batch)
  pop_batch_loop_lem (suc rounds) count batch [] stop = ground (arith, append-nil batch)
  pop_batch_loop_lem (suc rounds) count batch (x ∷ xs) stop = ground (
    arith,
    pop_batch_loop_lem rounds (count + 1) (batch ++ (x ∷ [])) xs stop,
    append_assoc batch (x ∷ []) (take rounds xs),
  )

  pub push_refines :
      (x : A) (q : NaiveTaskQueue A) (f : Fifo A)
      → Represents q f
      → ((push x q).0 ≡ (Fifo.push naive_policy x f).0)
        × Represents (push x q).1 (Fifo.push naive_policy x f).1
  unfolding push Fifo.push
  push_refines x q f h = (refl, ap (λ (g : Fifo A). record g { items = g.items ++ (x ∷ []) }) h)

  pop_view :
      (xs : List A) (stop : Bool)
      → SamePop Represents
          (pop (record { items = xs; stop = stop }))
          (Fifo.pop_items naive_policy xs stop)
  unfolding Fifo.pop_items pop
  pop_view [] true = (refl, refl)
  pop_view [] false = tt
  pop_view (x ∷ xs) stop = (refl, refl)

  pub pop_refines :
      (q : NaiveTaskQueue A) (f : Fifo A)
      → Represents q f
      → SamePop Represents (pop q) (Fifo.pop naive_policy f)
  unfolding Fifo.pop
  pop_refines q f h =
      subst (λ f. SamePop Represents (pop q) (Fifo.pop naive_policy f)) h (pop_view q.items q.stop)

  pop_batch_view :
      (batch : List A) (max : ℕ) (xs : List A) (stop : Bool)
      → SameBatch Represents
          (pop_batch batch max (record { items = xs; stop = stop }))
          (Fifo.pop_batch naive_policy batch max (record { items = xs; stopped = stop }))
  unfolding Fifo.pop_batch pop_batch
  pop_batch_view batch max [] true =
      rw (take-nil, drop-nil) (omega arith, sym (append-nil batch), refl)
  pop_batch_view batch max [] false = tt
  pop_batch_view batch max (x ∷ xs) true =
      rw (pop_batch_loop_lem max 0 batch (x ∷ xs) true) (omega arith, refl, refl)
  pop_batch_view batch max (x ∷ xs) false =
      rw (suc_eq_zero (length xs), pop_batch_loop_lem max 0 batch (x ∷ xs) false)
        (omega arith, refl, refl)

  pub pop_batch_refines :
      (batch : List A) (max : ℕ) (q : NaiveTaskQueue A) (f : Fifo A)
      → Represents q f
      → SameBatch Represents (pop_batch batch max q) (Fifo.pop_batch naive_policy batch max f)
  pop_batch_refines batch max q f h =
      subst
        (λ f.
          SameBatch Represents (pop_batch batch max q) (Fifo.pop_batch naive_policy batch max f))
        h (pop_batch_view batch max q.items q.stop)

  pub empty_view :
      (xs : List A) (stop : Bool) → empty (record { items = xs; stop = stop }) ≡ (length xs == 0)
  unfolding empty
  empty_view [] stop = refl
  empty_view (x ∷ xs) stop = ground arith

  unfoldable pub naive_implements : Implements (naive_task_queue A) naive_policy
  unfolding size shutdown
  naive_implements = record {
    Represents = Represents;
    push_refines = push_refines;
    pop_refines = pop_refines;
    pop_batch_refines = pop_batch_refines;
    size_refines = λ q f h. ap (λ (g : Fifo A). length g.items) h;
    empty_refines = λ q f h. empty_view q.items q.stop ∙ ap (λ (g : Fifo A). length g.items == 0) h;
    shutdown_refines = λ q f h. ap (λ (g : Fifo A). record g { stopped = true }) h;
  }

  -- The mutex queue is a first-in first-out queue that takes every task, also after `shutdown`, and
  -- whose `pop` and `pop_batch` wait exactly while it is empty and not stopped: from any state,
  -- every sequence of calls of its methods returns what the specification returns.
  pub naive_run :
      (calls : List (Call A)) (q : NaiveTaskQueue A)
      → run (naive_task_queue A) q calls ≡ run (fifo_task_queue A naive_policy) (view q) calls
  unfolding naive_implements
  naive_run calls q = run_refines naive_implements calls q (view q) refl
