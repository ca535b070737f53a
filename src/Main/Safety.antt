-- ===== src/Main/Safety.antt =====
-- src/main.cpp: what holds when the program comes to its run loop, and when it does not.
use lumen_engine.Prelude.{
  ℕ, ◌≤◌, ◌<◌, ◌≡◌, refl, sym, ap, subst, Option, none, some, List, [], ◌∷◌, length, arith, false,
}
use lumen_engine.Core.Types.{PreProcessor, PostProcessor}
use lumen_engine.Network.Kernel.{Revents}
use lumen_engine.Network.Setup.{
  SocketCall, Constructed, listening, thrown, construct, getaddrinfo_failed, no_address,
  listen_failed,
}
use lumen_engine.Network.Setup.Sockets.{open_after, Outcome, construct-Outcome}
use lumen_engine.Engine.Pool.{WorkerPod, NewPool, pool_made, pool_failed, new_pool}
use lumen_engine.Engine.Pool
use lumen_engine.Engine.Pool.Construct.{Misused, Counted, new_pool-Counted}
use lumen_engine.Engine.Worker.{workers_for}
use lumen_engine.Utils.Config.{ConfigManager, QueueType, new_config, load_from_file}
use lumen_engine.Utils.Config.Load.{Fits, IsSound, load_from_file-IsSound}
use lumen_engine.Main.{
  Environment, TaskQueueClass, spsc_class, mpmc_class, naive_class, choose_task_queue, Started,
  serving, exited, terminated, undefined, choose_processors, serve_with, with_pool, with_processors,
  main,
}

-- What each end of the start means, with the settings `c`.
abbrev pub StartsWell : {J : Type 0} → Environment J → ConfigManager J → Started J → Type 0
StartsWell env c (serving p) =
    (1 ≤ length p.pods)
    × Fits p.config.queue_type (length p.pods) p.config.batch_size
    × (p.task_queue ≡ spsc_class → length p.pods ≡ 1)
    × (open_after p.socket_calls [] ≡ p.sockfd ∷ [])
StartsWell env c (exited code calls) = (code ≡ 1) × (open_after calls [] ≡ [])
StartsWell env c (terminated pods) =
    (1 ≤ length pods) × (length pods < workers_for c.thread_count env.hardware_concurrency)
StartsWell env c undefined = Misused (env.new_engine c.model_path)

abbrev IsSpsc : TaskQueueClass → Type 0
IsSpsc spsc_class = Unit
IsSpsc mpmc_class = ⊥
IsSpsc naive_class = ⊥

-- The class of the single-consumer queue is chosen for that queue type only.
one_pod :
    (q : QueueType) (pods batch : ℕ)
    → Fits q pods batch
    → choose_task_queue q ≡ spsc_class
    → pods ≡ 1
one_pod QueueType.spsc pods batch fits e = fits
one_pod QueueType.mpmc pods batch fits e = absurd (subst IsSpsc (sym e) tt)
one_pod QueueType.batched pods batch fits e = absurd (subst IsSpsc (sym e) tt)
one_pod QueueType.naive_mutex pods batch fits e = absurd (subst IsSpsc (sym e) tt)

-- The pods are as many as the workers that the settings ask for.
Fits-workers_for :
    (q : QueueType) (threads batch hardware_concurrency : ℕ)
    → Fits q threads batch
    → Fits q (workers_for threads hardware_concurrency) batch
unfolding workers_for
Fits-workers_for QueueType.spsc threads batch hardware_concurrency h = ground arith
Fits-workers_for QueueType.batched threads batch hardware_concurrency h = h
Fits-workers_for QueueType.naive_mutex threads batch hardware_concurrency h = tt
Fits-workers_for QueueType.mpmc threads batch hardware_concurrency h = tt

no_revents : Revents
no_revents = record { readable = false; writable = false }

module _ {J : Type 0} (env : Environment J) (c : ConfigManager J) where
  serve_with-StartsWell :
      (pods : List WorkerPod) (processors : Option PreProcessor × Option PostProcessor)
      (garbage : Revents) (ended : List SocketCall × Constructed)
      → 1 ≤ length pods
      → Fits c.queue_type (length pods) c.batch_size
      → Outcome env.addresses env.listens garbage ended
      → StartsWell env c (serve_with env c pods processors ended)
  unfolding serve_with open_after
  serve_with-StartsWell pods (pre, post) garbage (calls, thrown getaddrinfo_failed) least fits h =
      (refl, ap (λ l. open_after l []) h.1)
  serve_with-StartsWell pods (pre, post) garbage (calls, thrown no_address) least fits h =
      (refl, h.1)
  serve_with-StartsWell pods (pre, post) garbage (calls, thrown listen_failed) least fits h =
      (refl, h.1)
  serve_with-StartsWell pods (pre, post) garbage (calls, listening fd) least fits h =
      (least, fits, one_pod c.queue_type (length pods) c.batch_size fits, h.2)

  with_pool-StartsWell :
      (processors : Option PreProcessor × Option PostProcessor) (n : ℕ) (pool : NewPool)
      → n ≡ workers_for c.thread_count env.hardware_concurrency
      → Counted (env.new_engine c.model_path) n pool
      → 1 ≤ n
      → Fits c.queue_type n c.batch_size
      → StartsWell env c (with_pool env c processors pool)
  unfolding with_pool open_after
  with_pool-StartsWell processors n (pool_made pods) all counted least fits =
      serve_with-StartsWell pods processors no_revents (construct env.addresses env.listens)
        (omega (arith, counted)) (subst (λ k. Fits c.queue_type k c.batch_size) (sym counted) fits)
        (construct-Outcome env.addresses env.listens no_revents)
  with_pool-StartsWell processors n (pool_failed []) all counted least fits = (refl, refl)
  with_pool-StartsWell processors n (pool_failed (pod ∷ pods)) all counted least fits =
      (omega arith, omega (arith, counted, all))
  with_pool-StartsWell processors n Pool.undefined all counted least fits = counted

  with_processors-StartsWell :
      (processors : Option (Option PreProcessor × Option PostProcessor))
      → IsSound c
      → StartsWell env c (with_processors env c processors)
  unfolding with_processors open_after
  with_processors-StartsWell none sound = (refl, refl)
  with_processors-StartsWell (some processors) sound =
      let (counted, least) =
        new_pool-Counted env.new_arena (env.new_engine c.model_path) c.thread_count
          env.hardware_concurrency c.alloc_type in
      with_pool-StartsWell processors (workers_for c.thread_count env.hardware_concurrency) _ refl
        counted least
        (Fits-workers_for c.queue_type c.thread_count c.batch_size env.hardware_concurrency sound)

-- Whatever the configuration file holds, and however ONNX Runtime, the file system and the system
-- calls answer: when the program comes to its run loop there is at least one worker, and exactly
-- one if it made the single-consumer queue; batches hold at least two tasks if the batched mode was
-- chosen; and the listening socket is the only one open. When it returns before, it returns 1 and
-- has closed every socket. The exception of the pool's constructor ends it by `std::terminate` only
-- while at least one pod is at work and fewer than the workers asked for. And it goes wrong in
-- memory only if the construction of an engine does.
pub main-StartsWell :
    {J : Type 0} (env : Environment J)
    → StartsWell env (load_from_file env.json env.config_file (new_config env.json)) (main env)
unfolding main
main-StartsWell env =
    let c = load_from_file env.json env.config_file (new_config env.json) in
    with_processors-StartsWell env c (choose_processors env c)
      (load_from_file-IsSound env.json env.config_file)
