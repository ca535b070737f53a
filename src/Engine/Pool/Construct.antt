-- ===== src/Engine/Pool/Construct.antt =====
-- The constructor of src/ThreadPool.cpp.
use lumen_engine.Prelude.{
  ℕ, zero, suc, ◌+◌, ◌<◌, ◌≤◌, ◌≡◌, refl, Option, none, some, List, [], ◌∷◌, arith, length,
  length-append,
}
use lumen_engine.Memory.Arena.{LumenArena, Created, created, thrown}
use lumen_engine.Engine.Metadata.{NewEngine, failed, made, made_in}
use lumen_engine.Engine.Metadata
use lumen_engine.Engine.Worker.{workers_for}
use lumen_engine.Engine.Pool.{
  WorkerPod, NewPool, pool_made, pool_failed, undefined, add_pod, new_pod, new_pods, new_pool,
}
use lumen_engine.Utils.Config.{AllocatorType, lumen_arena, standard}

-- An engine whose construction misuses memory.
abbrev pub Misused : (ℕ → Option LumenArena → NewEngine) → Type 0
Misused new_engine = (i : ℕ) × (o : Option LumenArena) × (new_engine i o ≡ Metadata.undefined)

-- All `n` pods, or a throw with fewer of them, or an engine that misuses memory.
abbrev pub Counted : (ℕ → Option LumenArena → NewEngine) → (n : ℕ) → NewPool → Type 0
Counted new_engine n (pool_made pods) = length pods ≡ n
Counted new_engine n (pool_failed pods) = length pods < n
Counted new_engine n undefined = Misused new_engine

Counted-add_pod :
    (new_engine : ℕ → Option LumenArena → NewEngine) (n : ℕ) (pods : List WorkerPod)
    (made_engine : NewEngine) (next : List WorkerPod → NewPool)
    → (made_engine ≡ Metadata.undefined → Misused new_engine)
    → length pods < n
    → ((more : List WorkerPod) → length more ≡ suc (length pods) → Counted new_engine n (next more))
    → Counted new_engine n (add_pod pods made_engine next)
unfolding add_pod
Counted-add_pod new_engine n pods (failed e) next bad h k = h
Counted-add_pod new_engine n pods Metadata.undefined next bad h k = bad refl
Counted-add_pod new_engine n pods (made meta) next bad h k =
    k _ (omega (arith, length-append pods (WorkerPod.standard_pod meta ∷ [])))
Counted-add_pod new_engine n pods (made_in meta a m) next bad h k =
    k _ (omega (arith, length-append pods (WorkerPod.arena_pod meta a m ∷ [])))

module _ (new_arena : ℕ → ℕ → Created) (new_engine : ℕ → Option LumenArena → NewEngine) where
  Counted-arena :
      (n i : ℕ) (pods : List WorkerPod) (c : Created) (next : List WorkerPod → NewPool)
      → length pods < n
      → ((more : List WorkerPod)
          → length more ≡ suc (length pods)
          → Counted new_engine n (next more))
      → Counted new_engine n (elim c [
        | thrown e ↦ pool_failed pods
        | created a ↦ add_pod pods (new_engine i (some a)) next
      ])
  Counted-arena n i pods (thrown e) next h k = h
  Counted-arena n i pods (created a) next h k =
      Counted-add_pod new_engine n pods (new_engine i (some a)) next (λ e. (i, some a, e)) h k

  Counted-new_pods :
      (alloc_type : AllocatorType) (n left i : ℕ) (pods : List WorkerPod)
      → length pods + left ≡ n
      → Counted new_engine n (new_pods new_arena new_engine alloc_type left i pods)
  unfolding new_pods new_pod
  Counted-new_pods alloc_type n zero i pods h = omega arith
  Counted-new_pods lumen_arena n (suc left) i pods h =
      Counted-arena n i pods (new_arena i _) _ (omega arith)
        (λ more e. Counted-new_pods lumen_arena n left (suc i) more (omega arith))
  Counted-new_pods standard n (suc left) i pods h =
      Counted-add_pod new_engine n pods (new_engine i none) _ (λ e. (i, none, e)) (omega arith)
        (λ more e. Counted-new_pods standard n left (suc i) more (omega arith))

  -- Whatever becomes of the arenas and of the engines, the constructor ends: it makes one pod for
  -- each worker, or it throws while strictly fewer pods, with their workers, are already there, or
  -- the construction of one of the engines misuses memory; there is at least one worker.
  pub new_pool-Counted :
      (thread_count hardware_concurrency : ℕ) (alloc_type : AllocatorType)
      → Counted new_engine
          (workers_for thread_count hardware_concurrency)
          (new_pool new_arena new_engine thread_count hardware_concurrency alloc_type)
        × (1 ≤ workers_for thread_count hardware_concurrency)
  unfolding new_pool workers_for
  new_pool-Counted thread_count hardware_concurrency alloc_type = (
    Counted-new_pods alloc_type (workers_for thread_count hardware_concurrency)
        (workers_for thread_count hardware_concurrency) 0 [] (omega arith),
    ground arith,
  )
