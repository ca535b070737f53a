-- ===== src/Engine/Pool/Shared/Accounts.antt =====
-- src/ThreadPool.cpp: several workers, each with its own arena, against the server and the owner.
use lumen_engine.Prelude.{
  ◌-◌, ◌≤◌, none, map, append_assoc, ℕ, ◌≡◌, refl, sym, ap, subst, ◌∙◌, Bool, true, inl, inr,
  Option, some, Option-cases, List, [], ◌∷◌, ◌++◌, if◌then◌else◌, arith, get_elem?, set,
}
use lumen_engine.Core.Types.{Text, InferenceTask}
use lumen_engine.Queue.Interface.{ITaskQueue}
use lumen_engine.Queue.Fifo.{Policy, Fifo, Implements}
use lumen_engine.Queue.Fifo
use lumen_engine.Memory.Arena.{LumenArena, reset}
use lumen_engine.Memory.Interface.{arena_allocator}
use lumen_engine.Engine.Run.{InferenceEngine, Durations}
use lumen_engine.Engine.Pool.Images.{task_of, IsImage, AllImages-append}
use lumen_engine.Engine.Pool.Shared.{
  Worker, SharedPool, worker_step, submit_task, PoolStep, submits, moves, sets_stop, shuts_queue,
  run_steps,
}
use lumen_engine.Engine.Pool.Shared.Books.{
  in_hand, steps_left, count, count-append, held, held-Others, allocators, allocators-set, AllFit,
  AllFit-get, AllFit-set,
}
use lumen_engine.Engine.Pool.Shared.Steps.{InOrder, Books, move_from-Moved}

module _ {F : Type 0} (t : ITaskQueue InferenceTask) (e : InferenceEngine F) (labels : List Text)
    (p : Policy) (imp : Implements t p) (arenas : List LumenArena) (batch_size : ℕ) where
  -- The books are in order with what the workers hold, and each worker has its arena as it was.
  pub record Balanced (pool : SharedPool t.Q LumenArena) : Type 0 where
    pub books : Books t e labels p imp batch_size pool (λ f. held f pool.workers)
    pub same_arenas : allocators pool.workers ≡ arenas
    pub fit : AllFit e labels pool.workers

  -- A step keeps the stop flags, and the order of the tasks if `hands` become `hands'`.
  pub record Follows (pool : SharedPool t.Q LumenArena) (h : Balanced pool)
      (pool' : SharedPool t.Q LumenArena) (h' : Balanced pool') (hands hands' : List InferenceTask)
      : Type 0 where
    pub same_stop : pool'.stop ≡ pool.stop
    pub same_stopped : h'.books.fifo.stopped ≡ h.books.fifo.stopped
    pub same_order :
        InOrder t e labels p imp batch_size pool h.books hands
        → InOrder t e labels p imp batch_size pool' h'.books hands'

  pub submit_task-Balanced :
      (task : InferenceTask) (pool : SharedPool t.Q LumenArena)
      → IsImage labels task
      → (h : Balanced pool)
      → let pool' = submit_task t arena_allocator reset e batch_size task pool in
        (h' : Balanced pool') × ((hands : List InferenceTask) → Follows pool h pool' h' hands hands)
  unfolding submit_task
  submit_task-Balanced task pool image h =
      let b = h.books in
      let grown : Bool → List InferenceTask =
        λ c. if c then pool.accepted ++ (task ∷ []) else pool.accepted in
      elim (Fifo.push-cases t p imp task pool.task_queue b.fifo b.represents) [
        | inl (taken, represents) ↦ (
          record {
            books = record {
              served = b.served;
              fifo = record b.fifo { items = b.fifo.items ++ (task ∷ []) };
              represents = represents;
              answers = b.answers;
              images = AllImages-append labels b.fifo.items (task ∷ []) b.images (image, tt);
              counted = λ f. omega (
                arith,
                b.counted f,
                count-append f b.fifo.items (task ∷ []),
                count-append f pool.accepted (task ∷ []),
                ap (λ c. count f (grown c)) taken,
              );
            };
            same_arenas = h.same_arenas;
            fit = h.fit;
          },
          λ hands. record {
            same_stop = refl;
            same_stopped = refl;
            same_order = λ order.
                ap (λ l. map task_of b.served ++ l)
                  (sym (append_assoc hands b.fifo.items (task ∷ [])))
                ∙ sym (append_assoc (map task_of b.served) (hands ++ b.fifo.items) (task ∷ []))
                ∙ ap (λ l. l ++ (task ∷ [])) order
                ∙ sym (ap grown taken);
          },
        )
        | inr (denied, represents) ↦ (
          record {
            books = record {
              served = b.served;
              fifo = b.fifo;
              represents = represents;
              answers = b.answers;
              images = b.images;
              counted = λ f. b.counted f ∙ sym (ap (λ c. count f (grown c)) denied);
            };
            same_arenas = h.same_arenas;
            fit = h.fit;
          },
          λ hands. record {
            same_stop = refl;
            same_stopped = refl;
            same_order = λ order. order ∙ sym (ap grown denied);
          },
        )
      ]

  pub sets_stop-Balanced :
      (pool : SharedPool t.Q LumenArena) (h : Balanced pool)
      → let pool' = record pool { stop = true } in
        (h' : Balanced pool') × (h'.books.fifo.stopped ≡ h.books.fifo.stopped)
        × ((hands : List InferenceTask)
            → InOrder t e labels p imp batch_size pool h.books hands
            → InOrder t e labels p imp batch_size pool' h'.books hands)
  sets_stop-Balanced pool h = (
    record {
      books = record {
        served = h.books.served;
        fifo = h.books.fifo;
        represents = h.books.represents;
        answers = h.books.answers;
        images = h.books.images;
        counted = h.books.counted;
      };
      same_arenas = h.same_arenas;
      fit = h.fit;
    },
    refl,
    λ hands order. order,
  )

  pub shuts_queue-Balanced :
      (pool : SharedPool t.Q LumenArena) (h : Balanced pool)
      → let pool' = record pool { task_queue = t.shutdown pool.task_queue } in
        (h' : Balanced pool') × (h'.books.fifo.stopped ≡ true)
        × ((hands : List InferenceTask)
            → InOrder t e labels p imp batch_size pool h.books hands
            → InOrder t e labels p imp batch_size pool' h'.books hands)
  shuts_queue-Balanced pool h = (
    record {
      books = record {
        served = h.books.served;
        fifo = record h.books.fifo { stopped = true };
        represents = imp.shutdown_refines pool.task_queue h.books.fifo h.books.represents;
        answers = h.books.answers;
        images = h.books.images;
        counted = h.books.counted;
      };
      same_arenas = h.same_arenas;
      fit = h.fit;
    },
    refl,
    λ hands order. order,
  )

  -- The books do not depend on where the workers are, but on what they hold.
  with_hands :
      (pool : SharedPool t.Q LumenArena) (workers' : List (Worker LumenArena))
      (before after : (InferenceTask → Bool) → ℕ)
      → ((f : InferenceTask → Bool) → before f ≡ after f)
      → Books t e labels p imp batch_size pool before
      → Books t e labels p imp batch_size (record pool { workers = workers' }) after
  with_hands pool workers' before after same b = record {
    served = b.served;
    fifo = b.fifo;
    represents = b.represents;
    answers = b.answers;
    images = b.images;
    counted = λ f. omega (arith, b.counted f, same f);
  }

  -- What a step of worker `i` comes to, who was `w`.
  pub record Stepped (i : ℕ) (w : Worker LumenArena) (pool : SharedPool t.Q LumenArena)
      (h : Balanced pool) (o : Option (SharedPool t.Q LumenArena)) : Type 0 where
    pub pool' : SharedPool t.Q LumenArena
    pub worker : Worker LumenArena
    pub came : o ≡ some pool'
    pub workers : pool'.workers ≡ set pool.workers i worker
    pub balanced : Balanced pool'
    pub follows : Follows pool h pool' balanced (in_hand w.place) (in_hand worker.place)
    pub nearer :
        pool.stop ≡ true
        → h.books.fifo.stopped ≡ true
        → steps_left batch_size worker.place ≤ steps_left batch_size w.place - 1

  pub moved-Stepped :
      (i : ℕ) (shown : ℕ × Durations) (w : Worker LumenArena) (pool : SharedPool t.Q LumenArena)
      → get_elem? pool.workers i ≡ some w
      → (h : Balanced pool)
      → Stepped i w pool h (worker_step t arena_allocator reset e batch_size i shown pool)
  unfolding worker_step with_hands
  moved-Stepped i shown w pool there h =
      let o = held-Others pool.workers i w there in
      let m =
        move_from-Moved t e labels p imp batch_size pool o.others w.allocator w.place shown
          (AllFit-get e labels pool.workers i w there h.fit)
          (with_hands pool pool.workers _ _ o.now h.books) in
      let held_later = λ (f : InferenceTask → Bool).
        ap (λ workers. held f (set workers i m.worker)) m.same_workers ∙ o.later m.worker f in
      record {
        pool' = record m.pool' { workers = set m.pool'.workers i m.worker };
        worker = m.worker;
        came = rw (there, worker_step) (rw (m.came, worker_step) refl);
        workers = ap (λ workers. set workers i m.worker) m.same_workers;
        balanced = record {
          books =
              with_hands m.pool' (set m.pool'.workers i m.worker) _ _ (λ f. sym (held_later f))
                m.books;
          same_arenas =
              ap (λ workers. allocators (set workers i m.worker)) m.same_workers
              ∙ allocators-set pool.workers i w m.worker there m.same_arena
              ∙ h.same_arenas;
          fit =
              subst (λ workers. AllFit e labels (set workers i m.worker)) (sym m.same_workers)
                (AllFit-set e labels pool.workers i m.worker m.fit h.fit);
        };
        follows = record {
          same_stop = m.same_stop;
          same_stopped = m.same_stopped;
          same_order = m.in_order;
        };
        nearer = m.nearer;
      }

  -- A step of a worker that is not there does nothing.
  pub nobody-worker_step :
      (i : ℕ) (shown : ℕ × Durations) (pool : SharedPool t.Q LumenArena)
      → get_elem? pool.workers i ≡ none
      → worker_step t arena_allocator reset e batch_size i shown pool ≡ some pool
  unfolding worker_step
  nobody-worker_step i shown pool nobody = rw (nobody, worker_step) refl

  abbrev Came : Option (SharedPool t.Q LumenArena) → Type 0
  Came o = (pool' : SharedPool t.Q LumenArena) × (o ≡ some pool') × Balanced pool'

  worker_step-Balanced :
      (i : ℕ) (shown : ℕ × Durations) (pool : SharedPool t.Q LumenArena)
      → Balanced pool
      → Came (worker_step t arena_allocator reset e batch_size i shown pool)
  worker_step-Balanced i shown pool h = elim (Option-cases (get_elem? pool.workers i)) [
    | inl nobody ↦ (pool, nobody-worker_step i shown pool nobody, h)
    | inr (w, there) ↦ let s = moved-Stepped i shown w pool there h in (s.pool', s.came, s.balanced)
  ]

  abbrev pub AllSubmit : List (PoolStep t arena_allocator reset e batch_size) → Type 0
  AllSubmit [] = Unit
  AllSubmit (submits task ∷ steps) = IsImage labels task × AllSubmit steps
  AllSubmit (moves i shown ∷ steps) = AllSubmit steps
  AllSubmit (sets_stop ∷ steps) = AllSubmit steps
  AllSubmit (shuts_queue ∷ steps) = AllSubmit steps

  -- Any number of workers share a task queue that keeps its promise, each with an arena that has
  -- been through its first request and has room. Whatever the server, the workers and the owner do,
  -- in whatever order, the workers come through, and from a pool with its books in order comes one
  -- with its books in order. That is: the results are, in order, the answers to the tasks served,
  -- one for each; for every test on tasks, as many of those served, of those in the workers' hands
  -- and of those in the queue pass it together as of those accepted, so none is lost, served twice
  -- or invented; and every worker's arena is as it was. The submitted tasks carry the image
  -- processors.
  pub run_steps-Balanced :
      (steps : List (PoolStep t arena_allocator reset e batch_size))
      (pool : SharedPool t.Q LumenArena)
      → AllSubmit steps
      → Balanced pool
      → (pool' : SharedPool t.Q LumenArena) × (run_steps t arena_allocator reset e batch_size steps
            pool
          ≡ some pool')
        × Balanced pool'
  unfolding run_steps
  run_steps-Balanced [] pool ok h = (pool, refl, h)
  run_steps-Balanced (submits task ∷ steps) pool ok h =
      run_steps-Balanced steps _ ok.1 (submit_task-Balanced task pool ok.0 h).0
  run_steps-Balanced (sets_stop ∷ steps) pool ok h =
      run_steps-Balanced steps _ ok (sets_stop-Balanced pool h).0
  run_steps-Balanced (shuts_queue ∷ steps) pool ok h =
      run_steps-Balanced steps _ ok (shuts_queue-Balanced pool h).0
  run_steps-Balanced (moves i shown ∷ steps) pool ok h =
      let (pool₁, ran, h₁) = worker_step-Balanced i shown pool h in
      let (pool₂, ran₂, h₂) = run_steps-Balanced steps pool₁ ok h₁ in
      (pool₂, rw (ran, run_steps) ran₂, h₂)
