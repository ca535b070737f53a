-- ===== src/Engine/Tests.antt =====
-- A worker on two tasks, one of them too short, with a model of one pixel.
use lumen_engine.Prelude.{
  get_or, leb, ℕ, ◌≡◌, refl, true, false, some, List, [], ◌∷◌, arith, ltb, map, pos,
}
use lumen_engine.Core.Types.{
  Text, InferenceTask, InferenceResult, imagenet_pre, imagenet_post, new_trace,
}
use lumen_engine.Memory.Arena.{LumenArena}
use lumen_engine.Queue.Result.{NaiveResultQueue}
use lumen_engine.Engine.Run.{InferenceEngine, Durations, count_of}
use lumen_engine.Engine.Worker.{serve_batch}
use lumen_engine.Engine.Worker.Answers.{serve_batch_lem, answer_of}

abbrev small_engine : InferenceEngine ℕ
small_engine = record {
  input_node_dims = pos 1 ∷ pos 3 ∷ pos 1 ∷ pos 1 ∷ [];
  output_node_dims = pos 1 ∷ pos 2 ∷ [];
  session = λ input i. get_or input i 0;
  creates_tensor = λ dims count. leb (count_of 1 dims) count;
  session_blocks = 30 ∷ [];
  normalise = λ c pixel. pixel;
  less = ltb;
  zero_float = 0;
}

abbrev arena : LumenArena
arena = record {
  arena_ptr = 640;
  capacity = 400;
  offset = 128;
  warmup_offset = 128;
  warmed_up = true;
}

abbrev labels : List Text
labels = (97 ∷ []) ∷ (98 ∷ []) ∷ []

abbrev task : List ℕ → InferenceTask
task bytes = record {
  client_fd = pos 7;
  bytes = bytes;
  pre = some imagenet_pre;
  post = some (imagenet_post labels);
  trace = some (new_trace 2 0);
}

abbrev times : Durations
times = record { preprocess = 1; inference = 5; postprocess = 2 }

abbrev batch : List (ℕ × Durations × InferenceTask)
batch = (9, times, task (1 ∷ 8 ∷ 3 ∷ [])) ∷ (20, times, task (1 ∷ [])) ∷ []

abbrev no_results : NaiveResultQueue InferenceResult
no_results = record { items = []; stop = false }

serve_batch_lem_example :
    serve_batch small_engine batch arena no_results
    ≡ some (arena, record { items = map (answer_of small_engine labels) batch; stop = false })
unfolding count_of
serve_batch_lem_example =
    serve_batch_lem small_engine labels batch arena no_results
      (record { warm = refl; at_mark = refl })
      (record {
        valid = omega arith;
        shaped = refl;
        input_small = omega arith;
        output_small = omega arith;
        session_small = (omega arith, tt);
        fits = omega arith;
      })
      (refl, refl, (refl, refl, tt))
