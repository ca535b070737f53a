-- ===== src/Engine/Pool/Shared/Steps.antt =====
-- src/ThreadPool.cpp: one step of one worker, with an arena, among several.
use lumen_engine.Prelude.{
  length-take, ◌-◌, ◌≤◌, append_assoc, take-append-drop, ℕ, ◌+◌, ◌≡◌, refl, sym, ap, subst, ◌∙◌,
  Bool, true, false, if_elim, Bool-cases, inl, inr, Option, some, List, [], ◌∷◌, ◌++◌, map,
  if◌then◌else◌, arith, length, take, drop, min, ◌==◌, ==_iff, not, ◌&&◌,
}
use lumen_engine.Core.Types.{Text, InferenceTask}
use lumen_engine.Queue.Interface.{ITaskQueue, Blocking, blocked, returned}
use lumen_engine.Queue.Fifo.{Policy, Fifo, Implements, SameBatch}
use lumen_engine.Queue.Fifo
use lumen_engine.Memory.Arena.{LumenArena, reset}
use lumen_engine.Memory.Interface.{arena_allocator}
use lumen_engine.Engine.Run.{InferenceEngine, Durations}
use lumen_engine.Engine.Worker.Answers.{answer_of, serve_batch_lem}
use lumen_engine.Engine.Pool.Images.{
  AllImages, task_of, AllImages-take, AllImages-drop, map-append, take_none,
}
use lumen_engine.Engine.Pool.Shared.{
  Place, at_loop, at_pop, serving, ended, Worker, SharedPool, with_batch, move_from,
}
use lumen_engine.Engine.Pool.Shared.Books.{
  steps_left, in_hand, count, count-append, count-take-drop, Fit,
}

module _ {F : Type 0} (t : ITaskQueue InferenceTask) (e : InferenceEngine F) (labels : List Text)
    (p : Policy) (imp : Implements t p) (batch_size : ℕ) where
  abbrev pub Pool : Type 0
  Pool = SharedPool t.Q LumenArena

  -- The tasks served so far, with what the clock showed, those in the hands of the workers and the
  -- queue's contents account for every task that was accepted.
  pub record Books (pool : Pool) (in_hands : (InferenceTask → Bool) → ℕ) : Type 0 where
    pub served : List (ℕ × Durations × InferenceTask)
    pub fifo : Fifo InferenceTask
    pub represents : imp.Represents pool.task_queue fifo
    pub answers : pool.response_queue.items ≡ map (answer_of e labels) served
    pub images : AllImages labels fifo.items
    pub counted :
        (f : InferenceTask → Bool)
        → count f (map task_of served) + in_hands f + count f fifo.items ≡ count f pool.accepted

  -- The tasks served, those in some hands and those in the queue, in this order, are those accepted.
  abbrev pub InOrder :
      (pool : Pool) {in_hands : (InferenceTask → Bool) → ℕ}
      → Books pool in_hands
      → List InferenceTask
      → Type 0
  InOrder pool books hands = map task_of books.served ++ (hands ++ books.fifo.items) ≡ pool.accepted

  -- What a step of a worker at the place `from`, with the arena `arena`, comes to, when the others
  -- hold `others`.
  pub record Moved (pool : Pool) (others : (InferenceTask → Bool) → ℕ) (arena : LumenArena)
      (from : Place) (prior : Books pool (λ f. others f + count f (in_hand from)))
      (o : Option (Worker LumenArena × Pool)) : Type 0 where
    pub worker : Worker LumenArena
    pub pool' : Pool
    pub came : o ≡ some (worker, pool')
    pub same_workers : pool'.workers ≡ pool.workers
    pub same_stop : pool'.stop ≡ pool.stop
    pub same_arena : worker.allocator ≡ arena
    pub fit : Fit e labels worker
    pub books : Books pool' (λ f. others f + count f (in_hand worker.place))
    pub same_stopped : books.fifo.stopped ≡ prior.fifo.stopped
    pub in_order : InOrder pool prior (in_hand from) → InOrder pool' books (in_hand worker.place)
    pub nearer :
        pool.stop ≡ true
        → prior.fifo.stopped ≡ true
        → steps_left batch_size worker.place ≤ steps_left batch_size from - 1

  module _ (pool : Pool) (others : (InferenceTask → Bool) → ℕ) (arena : LumenArena) where
    -- A step that only leads to another place, with no task in hand.
    stands-Moved :
        (from to : Place)
        → in_hand from ≡ []
        → in_hand to ≡ []
        → Fit e labels (record { place = from; allocator = arena })
        → (books : Books pool (λ f. others f + count f (in_hand from)))
        → (pool.stop ≡ true
            → books.fifo.stopped ≡ true
            → steps_left batch_size to ≤ steps_left batch_size from - 1)
        → Moved pool others arena from books (some (record { place = to; allocator = arena }, pool))
    stands-Moved from to none_before none_after fit books nearer = record {
      worker = record { place = to; allocator = arena };
      pool' = pool;
      came = refl;
      same_workers = refl;
      same_stop = refl;
      same_arena = refl;
      fit = record {
        steady = fit.steady;
        room = fit.room;
        images = subst (AllImages labels) (sym none_after) tt;
      };
      books = record {
        served = books.served;
        fifo = books.fifo;
        represents = books.represents;
        answers = books.answers;
        images = books.images;
        counted =
            λ f. omega (arith, books.counted f, ap (count f) none_before, ap (count f) none_after);
      };
      same_stopped = refl;
      in_order = λ h.
          ap (λ hands. map task_of books.served ++ (hands ++ books.fifo.items))
            (none_after ∙ sym none_before)
          ∙ h;
      nearer = nearer;
    }

    abbrev after_pop : Blocking (ℕ × List InferenceTask × t.Q) → Option (Worker LumenArena × Pool)
    after_pop popped = elim popped [
      | blocked ↦ some (record { place = at_pop; allocator = arena }, pool)
      | returned (number, batch, q) ↦ some (
        record { place = with_batch number batch; allocator = arena },
        record pool { task_queue = q },
      )
    ]

    in_hand-with_batch :
        (number : ℕ) (batch : List InferenceTask)
        → (number ≡ 0 → batch ≡ [])
        → in_hand (with_batch number batch) ≡ batch
    in_hand-with_batch number batch none_taken = elim (Bool-cases (number == 0)) [
      | inl nothing ↦ rw nothing (sym (none_taken ((==_iff number 0).0 nothing)))
      | inr some_tasks ↦ rw some_tasks refl
    ]

    with_batch_left :
        (number : ℕ) (batch : List InferenceTask)
        → length batch ≤ batch_size
        → steps_left batch_size (with_batch number batch) ≤ 2 + batch_size
    with_batch_left number batch short =
        if_elim (λ place. steps_left batch_size place ≤ 2 + batch_size) (number == 0)
          (λ _. omega arith) (λ _. omega arith)

    popped-Moved :
        (popped : Blocking (ℕ × List InferenceTask × t.Q)) (waits : Bool)
        → Fit e labels (record { place = at_pop; allocator = arena })
        → (books : Books pool (λ f. others f + 0)) → (books.fifo.stopped ≡ true → waits ≡ false)
        → SameBatch imp.Represents popped (
            if waits
            then blocked
            else returned (
              min batch_size (length books.fifo.items),
              take batch_size books.fifo.items,
              record books.fifo { items = drop batch_size books.fifo.items },
            ))
        → Moved pool others arena at_pop books (after_pop popped)
    popped-Moved blocked true fit books goes_on same =
        stands-Moved at_pop at_pop refl refl fit books
          (λ _ stopped. ground (arith, goes_on stopped))
    popped-Moved blocked false fit books goes_on same = absurd same
    popped-Moved (returned (number, batch, q)) true fit books goes_on same = absurd same
    popped-Moved (returned (number, batch, q)) false fit books goes_on same =
        let items = books.fifo.items in
        let hand : in_hand (with_batch number batch) ≡ take batch_size items =
          in_hand-with_batch number batch
            (λ zero_taken. same.1 ∙ take_none batch_size items (sym same.0 ∙ zero_taken))
          ∙ same.1 in
        record {
          worker = record { place = with_batch number batch; allocator = arena };
          pool' = record pool { task_queue = q };
          came = refl;
          same_workers = refl;
          same_stop = refl;
          same_arena = refl;
          fit = record {
            steady = fit.steady;
            room = fit.room;
            images =
                subst (AllImages labels) (sym hand)
                  (AllImages-take labels batch_size items books.images);
          };
          books = record {
            served = books.served;
            fifo = record books.fifo { items = drop batch_size items };
            represents = same.2;
            answers = books.answers;
            images = AllImages-drop labels batch_size items books.images;
            counted = λ f.
                omega
                  (arith, books.counted f, ap (count f) hand, count-take-drop f batch_size items);
          };
          same_stopped = refl;
          in_order = λ h.
              ap (λ l. map task_of books.served ++ l)
                (ap (λ hands. hands ++ drop batch_size items) hand
                  ∙ take-append-drop batch_size items)
              ∙ h;
          nearer = λ _ _. omega (
            arith,
            with_batch_left number batch
                (omega (arith, ap length same.1, length-take batch_size items)),
          );
        }

    served-Moved :
        (shown : ℕ × Durations) (task : InferenceTask) (batch : List InferenceTask)
        → Fit e labels (record { place = serving (task ∷ batch); allocator = arena })
        → (books : Books pool (λ f. others f + count f (task ∷ batch)))
        → Moved pool others arena (serving (task ∷ batch)) books (
            move_from t arena_allocator reset e batch_size
              (serving (task ∷ batch))
              shown
              arena
              pool)
    unfolding move_from
    served-Moved shown task batch fit books =
        let entry : List (ℕ × Durations × InferenceTask) = (shown.0, shown.1, task) ∷ [] in
        record {
          worker = record { place = serving batch; allocator = arena };
          pool' = record pool {
            response_queue = record pool.response_queue {
              items = pool.response_queue.items ++ map (answer_of e labels) entry;
            };
          };
          came =
              rw
                (
                  serve_batch_lem e labels entry arena pool.response_queue fit.steady fit.room
                      (fit.images.0.0, fit.images.0.1, tt),
                  move_from,
                )
                refl;
          same_workers = refl;
          same_stop = refl;
          same_arena = refl;
          fit = record { steady = fit.steady; room = fit.room; images = fit.images.1 };
          books = record {
            served = books.served ++ entry;
            fifo = books.fifo;
            represents = books.represents;
            answers =
                ap (λ l. l ++ map (answer_of e labels) entry) books.answers
                ∙ sym (map-append (answer_of e labels) books.served entry);
            images = books.images;
            counted = λ f. omega (
              arith,
              books.counted f,
              ap (count f) (map-append task_of books.served entry),
              count-append f (map task_of books.served) (task ∷ []),
            );
          };
          same_stopped = refl;
          in_order = λ h.
              ap (λ l. l ++ (batch ++ books.fifo.items)) (map-append task_of books.served entry)
              ∙ append_assoc (map task_of books.served) (task ∷ []) (batch ++ books.fifo.items)
              ∙ h;
          nearer = λ _ _. omega arith;
        }

    pub move_from-Moved :
        (place : Place) (shown : ℕ × Durations)
        → Fit e labels (record { place = place; allocator = arena })
        → (books : Books pool (λ f. others f + count f (in_hand place)))
        → Moved pool others arena place books
            (move_from t arena_allocator reset e batch_size place shown arena pool)
    unfolding move_from Fifo.pop_batch
    move_from-Moved at_loop shown fit books =
        if_elim
          (λ to.
            Moved pool others arena at_loop books
              (some (record { place = to; allocator = arena }, pool)))
          pool.stop (λ _. stands-Moved at_loop ended refl refl fit books (λ _ _. omega arith))
          (λ off. stands-Moved at_loop at_pop refl refl fit books (λ on _. ground (arith, on, off)))
    move_from-Moved at_pop shown fit books =
        popped-Moved (t.pop_batch [] batch_size pool.task_queue)
          (p.waits && not books.fifo.stopped && (length books.fifo.items == 0)) fit books
          (λ stopped. ground (arith, stopped))
          (imp.pop_batch_refines [] batch_size pool.task_queue books.fifo books.represents)
    move_from-Moved (serving []) shown fit books =
        stands-Moved (serving []) at_loop refl refl fit books (λ _ _. omega arith)
    move_from-Moved (serving (task ∷ batch)) shown fit books =
        served-Moved shown task batch fit books
    move_from-Moved ended shown fit books =
        stands-Moved ended ended refl refl fit books (λ _ _. omega arith)
