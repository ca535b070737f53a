-- ===== src/Main.antt =====
-- src/main.cpp: the parts of the program, put together as the configuration says.
pub mod Safety
mod Tests
use lumen_engine.Prelude.{ℕ, Bool, true, false, Option, none, some, List, [], ◌∷◌, ℤ}
use lumen_engine.Core.Types.{
  Text, InferenceTask, PreProcessor, imagenet_pre, PostProcessor, imagenet_post, task_movable,
}
use lumen_engine.Memory.Arena.{LumenArena, Created}
use lumen_engine.Models.ImageNet.{read_labels}
use lumen_engine.Network.Setup.{
  Address, SocketCall, Constructed, listening, thrown, construct, destroy,
}
use lumen_engine.Engine.Metadata.{NewEngine}
use lumen_engine.Engine.Pool.{WorkerPod, NewPool, pool_made, pool_failed, new_pool}
use lumen_engine.Engine.Pool
use lumen_engine.Utils.Config.{
  Json, ConfigManager, QueueType, spsc, mpmc, batched, naive_mutex, ProcessorType, imagenet,
  raw_tensor, object_detection, new_config, load_from_file, get_metadata_extra,
}
use lumen_engine.Utils.Texts.{text_label_path}

-- The classes of task queue; the batched mode uses the mutex queue.
pub data TaskQueueClass : Type 0 where
  spsc_class : TaskQueueClass
  mpmc_class : TaskQueueClass
  naive_class : TaskQueueClass

abbrev pub choose_task_queue : QueueType → TaskQueueClass
choose_task_queue spsc = spsc_class
choose_task_queue mpmc = mpmc_class
choose_task_queue batched = naive_class
choose_task_queue naive_mutex = naive_class

-- What the program takes from outside: the file system, ONNX Runtime, and the system calls. For
-- `new_arena` and `new_engine` see `new_pool`.
pub record Environment (J : Type 0) : Type 0 where
  pub json : Json J
  pub config_file : Option Text
  pub labels_file : Text → Option (List Text)
  pub hardware_concurrency : ℕ
  pub new_arena : ℕ → ℕ → Created
  pub new_engine : (model_path : Text) → ℕ → Option LumenArena → NewEngine
  pub addresses : Option (List Address)
  pub listens : Bool

-- The program when it comes to its run loop.
pub record Program (J : Type 0) : Type 0 where
  pub config : ConfigManager J
  pub task_queue : TaskQueueClass
  pub pods : List WorkerPod
  pub pre : Option PreProcessor
  pub post : Option PostProcessor
  pub sockfd : ℤ
  pub socket_calls : List SocketCall

-- `terminated`: an exception leaves the pool's constructor while the workers of the pods that are
-- made run.
pub data Started (J : Type 0) : Type 0 where
  serving : Program J → Started J
  exited : (code : ℕ) → List SocketCall → Started J
  terminated : (pods : List WorkerPod) → Started J
  undefined : Started J

module _ {J : Type 0} (env : Environment J) where
  -- Null pointers for every processor type but one; `none`: the label path is no string.
  unfoldable pub choose_processors :
      ConfigManager J → Option (Option PreProcessor × Option PostProcessor)
  choose_processors c = elim c.proc_type [
    | imagenet ↦ elim (get_metadata_extra env.json text_label_path c) [
      | none ↦ none
      | some labels ↦
          some (some imagenet_pre, some (imagenet_post (read_labels (env.labels_file labels))))
    ]
    | raw_tensor ↦ some (none, none)
    | object_detection ↦ some (none, none)
  ]

  -- The server's construction. If it throws, the pool is shut down by its destructor.
  unfoldable pub serve_with :
      ConfigManager J
      → List WorkerPod
      → Option PreProcessor × Option PostProcessor
      → List SocketCall × Constructed
      → Started J
  serve_with c pods (pre, post) (calls, thrown e) = exited 1 calls
  serve_with c pods (pre, post) (calls, listening fd) = serving (record {
    config = c;
    task_queue = choose_task_queue c.queue_type;
    pods = pods;
    pre = pre;
    post = post;
    sockfd = fd;
    socket_calls = calls;
  })

  unfoldable pub with_pool :
      ConfigManager J → Option PreProcessor × Option PostProcessor → NewPool → Started J
  with_pool c processors (pool_made pods) =
      serve_with c pods processors (construct env.addresses env.listens)
  with_pool c processors (pool_failed []) = exited 1 []
  with_pool c processors (pool_failed (pod ∷ pods)) = terminated (pod ∷ pods)
  with_pool c processors Pool.undefined = undefined

  unfoldable pub with_processors :
      ConfigManager J → Option (Option PreProcessor × Option PostProcessor) → Started J
  with_processors c none = exited 1 []
  with_processors c (some processors) = with_pool c processors (
      new_pool env.new_arena (env.new_engine c.model_path) c.thread_count env.hardware_concurrency
        c.alloc_type)

  unfoldable pub main : Started J
  main =
      let c = load_from_file env.json env.config_file (new_config env.json) in
      with_processors c (choose_processors c)
