-- ===== src/Core/Types.antt =====
-- InferenceTrace.hpp, InferenceTask.hpp and InferenceResult.hpp in include/lumen/core.
use lumen_engine.Prelude.{ℕ, ◌-◌, Bool, true, Option, none, List, [], ℤ, minus_one}
use lumen_engine.Queue.Interface.{Movable}

-- A byte is a number; a text is its bytes.
abbrev pub Text : Type 0
Text = List ℕ

-- A time point is the clock's count of nanoseconds. A duration `..._ms` is a `double` in the
-- program, and here its whole number of nanoseconds.
pub record InferenceTrace : Type 0 where
  pub request_id : ℕ
  pub start_ts : ℕ
  pub queue_wait_ms : ℕ
  pub preprocess_ms : ℕ
  pub inference_ms : ℕ
  pub postprocess_ms : ℕ
  pub total_e2e_ms : ℕ
  pub metadata : Text

pub new_trace : (now id : ℕ) → InferenceTrace
new_trace now id = record {
  request_id = id;
  start_ts = now;
  queue_wait_ms = 0;
  preprocess_ms = 0;
  inference_ms = 0;
  postprocess_ms = 0;
  total_e2e_ms = 0;
  metadata = [];
}

-- The clock is steady: `now` is not before `start_ts`.
pub get_elapsed_ms : (now : ℕ) → InferenceTrace → ℕ
get_elapsed_ms now t = now - t.start_ts

-- The classes that implement `IPreProcessor` and `IPostProcessor`; a null pointer is `none`.
pub data PreProcessor : Type 0 where
  imagenet_pre : PreProcessor

pub data PostProcessor : Type 0 where
  imagenet_post : List Text → PostProcessor

pub record InferenceTask : Type 0 where
  pub client_fd : ℤ
  pub bytes : List ℕ
  pub pre : Option PreProcessor
  pub post : Option PostProcessor
  pub trace : Option InferenceTrace

pub default_task : InferenceTask
default_task = record { client_fd = minus_one; bytes = []; pre = none; post = none; trace = none }

-- The implicit move constructor copies the descriptor and takes the rest.
pub moved_task : InferenceTask → InferenceTask
moved_task t = record { client_fd = t.client_fd; bytes = []; pre = none; post = none; trace = none }

instance abbrev pub task_movable : Movable InferenceTask
task_movable = record { default_value = default_task; moved_from = moved_task }

pub record InferenceResult : Type 0 where
  pub client_fd : ℤ
  pub response : Text
  pub trace : Option InferenceTrace
  pub success : Bool
  pub error_message : Text

-- The designated initialiser of the engine: the other fields keep their defaults.
pub new_result : ℤ → Text → Option InferenceTrace → InferenceResult
new_result fd response trace = record {
  client_fd = fd;
  response = response;
  trace = trace;
  success = true;
  error_message = [];
}
