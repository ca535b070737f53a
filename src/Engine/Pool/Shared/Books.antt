-- ===== src/Engine/Pool/Shared/Books.antt =====
-- src/ThreadPool.cpp: the tasks in the hands of the workers, counted.
use lumen_engine.Prelude.{
  ℕ, zero, suc, ◌+◌, ◌≡◌, refl, ap, sym, ◌∙◌, subst, Bool, some, List, [], ◌∷◌, ◌++◌, map,
  if◌then◌else◌, arith, length, none_ne, some-injective, get_elem?, set, take, drop,
  take-append-drop,
}
use lumen_engine.Core.Types.{Text, InferenceTask}
use lumen_engine.Memory.Arena.{LumenArena}
use lumen_engine.Memory.Arena.Steady.{IsSteady}
use lumen_engine.Engine.Run.{InferenceEngine}
use lumen_engine.Engine.Worker.Room.{Roomy}
use lumen_engine.Engine.Pool.Images.{AllImages}
use lumen_engine.Engine.Pool.Shared.{Place, at_loop, at_pop, serving, ended, Worker}

abbrev pub in_hand : Place → List InferenceTask
in_hand (serving batch) = batch
in_hand _ = []

-- How many steps a worker has still to make, at most, once the pool is stopped.
abbrev pub steps_left : (batch_size : ℕ) → Place → ℕ
steps_left batch_size at_loop = 1
steps_left batch_size at_pop = 3 + batch_size
steps_left batch_size (serving batch) = 2 + length batch
steps_left batch_size ended = 0

-- How many tasks pass a test.
abbrev pub count : (InferenceTask → Bool) → List InferenceTask → ℕ
count f [] = 0
count f (task ∷ tasks) = (if f task then 1 else 0) + count f tasks

pub count-append :
    (f : InferenceTask → Bool) (xs ys : List InferenceTask)
    → count f (xs ++ ys) ≡ count f xs + count f ys
count-append f [] ys = omega arith
count-append f (x ∷ xs) ys = omega (arith, count-append f xs ys)

pub count-take-drop :
    (f : InferenceTask → Bool) (n : ℕ) (xs : List InferenceTask)
    → count f (take n xs) + count f (drop n xs) ≡ count f xs
count-take-drop f n xs =
    sym (count-append f (take n xs) (drop n xs)) ∙ ap (count f) (take-append-drop n xs)

module _ {S : Type 0} where
  abbrev pub held : (InferenceTask → Bool) → List (Worker S) → ℕ
  held f [] = 0
  held f (w ∷ workers) = count f (in_hand w.place) + held f workers

  -- What the workers other than `i` hold does not depend on worker `i`.
  pub record Others (workers : List (Worker S)) (i : ℕ) (w : Worker S) : Type 0 where
    pub others : (InferenceTask → Bool) → ℕ
    pub now : (f : InferenceTask → Bool) → held f workers ≡ others f + count f (in_hand w.place)
    pub later :
        (w' : Worker S) (f : InferenceTask → Bool)
        → held f (set workers i w') ≡ others f + count f (in_hand w'.place)

  pub held-Others :
      (workers : List (Worker S)) (i : ℕ) (w : Worker S)
      → get_elem? workers i ≡ some w
      → Others workers i w
  held-Others [] i w h = none_ne h
  held-Others (v ∷ workers) zero w h = record {
    others = λ f. held f workers;
    now = λ f. omega (arith, ap (λ u. count f (in_hand u.place)) (some-injective h));
    later = λ w' f. omega arith;
  }
  held-Others (v ∷ workers) (suc i) w h =
      let rest = held-Others workers i w h in
      record {
        others = λ f. count f (in_hand v.place) + rest.others f;
        now = λ f. omega (arith, rest.now f);
        later = λ w' f. omega (arith, rest.later w' f);
      }

  pub get_set :
      (workers : List (Worker S)) (i : ℕ) (w w' : Worker S)
      → get_elem? workers i ≡ some w
      → get_elem? (set workers i w') i ≡ some w'
  get_set [] i w w' h = none_ne h
  get_set (v ∷ workers) zero w w' h = refl
  get_set (v ∷ workers) (suc i) w w' h = get_set workers i w w' h

  abbrev pub allocators : List (Worker S) → List S
  allocators workers = map (λ w. w.allocator) workers

  pub allocators-set :
      (workers : List (Worker S)) (i : ℕ) (w w' : Worker S)
      → get_elem? workers i ≡ some w
      → w'.allocator ≡ w.allocator
      → allocators (set workers i w') ≡ allocators workers
  allocators-set [] i w w' h same = refl
  allocators-set (v ∷ workers) zero w w' h same =
      ap (λ s. s ∷ allocators workers) (same ∙ sym (ap (λ u. u.allocator) (some-injective h)))
  allocators-set (v ∷ workers) (suc i) w w' h same =
      ap (λ l. v.allocator ∷ l) (allocators-set workers i w w' h same)

module _ {F : Type 0} (e : InferenceEngine F) (labels : List Text) where
  -- A worker's arena has been through its first request and has room, and its tasks carry the image
  -- processors.
  pub record Fit (w : Worker LumenArena) : Type 0 where
    pub steady : IsSteady w.allocator
    pub room : Roomy e w.allocator
    pub images : AllImages labels (in_hand w.place)

  abbrev pub AllFit : List (Worker LumenArena) → Type 0
  AllFit [] = Unit
  AllFit (w ∷ workers) = Fit w × AllFit workers

  pub AllFit-get :
      (workers : List (Worker LumenArena)) (i : ℕ) (w : Worker LumenArena)
      → get_elem? workers i ≡ some w
      → AllFit workers
      → Fit w
  AllFit-get [] i w h fit = none_ne h
  AllFit-get (v ∷ workers) zero w h fit = subst Fit (some-injective h) fit.0
  AllFit-get (v ∷ workers) (suc i) w h fit = AllFit-get workers i w h fit.1

  pub AllFit-set :
      (workers : List (Worker LumenArena)) (i : ℕ) (w : Worker LumenArena)
      → Fit w
      → AllFit workers
      → AllFit (set workers i w)
  AllFit-set [] i w h fit = tt
  AllFit-set (v ∷ workers) zero w h fit = (h, fit.1)
  AllFit-set (v ∷ workers) (suc i) w h fit = (fit.0, AllFit-set workers i w h fit.1)
