-- ===== src/Telemetry/Csv.antt =====
-- `save_to_csv` of src/TelemetryManager.cpp: the file as its bytes.
pub mod Read
use lumen_engine.Prelude.{
  ℕ, ◌+◌, ◌≡◌, sym, ap, ◌∙◌, Bool, true, false, Option, none, some, List, [], ◌∷◌, ◌++◌, append-nil,
  append_assoc,
}
use lumen_engine.Core.Types.{Text, InferenceTrace}
use lumen_engine.Utils.Config.{
  QueueType, spsc, mpmc, batched, naive_mutex, AllocatorType, lumen_arena, standard,
}

-- The texts of the file.
pub record Names : Type 0 where
  pub spsc_name : Text
  pub mpmc_name : Text
  pub batched_name : Text
  pub naive_name : Text
  pub arena_name : Text
  pub standard_name : Text

-- "SPSC", "MPMC", "Batched", "Naive", "Arena" and "Standard"
abbrev pub names : Names
names = record {
  spsc_name = 83 ∷ 80 ∷ 83 ∷ 67 ∷ [];
  mpmc_name = 77 ∷ 80 ∷ 77 ∷ 67 ∷ [];
  batched_name = 66 ∷ 97 ∷ 116 ∷ 99 ∷ 104 ∷ 101 ∷ 100 ∷ [];
  naive_name = 78 ∷ 97 ∷ 105 ∷ 118 ∷ 101 ∷ [];
  arena_name = 65 ∷ 114 ∷ 101 ∷ 110 ∷ 97 ∷ [];
  standard_name = 83 ∷ 116 ∷ 97 ∷ 110 ∷ 100 ∷ 97 ∷ 114 ∷ 100 ∷ [];
}

abbrev pub queue_name : QueueType → Text
queue_name spsc = names.spsc_name
queue_name mpmc = names.mpmc_name
queue_name batched = names.batched_name
queue_name naive_mutex = names.naive_name

abbrev pub allocator_name : AllocatorType → Text
allocator_name lumen_arena = names.arena_name
allocator_name standard = names.standard_name

-- "timestamp,request_id,queue_type,alloc_type,queue_ms,preprocess_ms,inference_ms,postprocess_ms,"
-- and "total_ms", and the end of the line
abbrev pub header : Text
header =
    116 ∷ 105 ∷ 109 ∷ 101 ∷ 115 ∷ 116 ∷ 97 ∷ 109 ∷ 112 ∷ 44 ∷ 114 ∷ 101 ∷ 113 ∷ 117 ∷ 101 ∷ 115
    ∷ 116 ∷ 95 ∷ 105 ∷ 100 ∷ 44 ∷ 113 ∷ 117 ∷ 101 ∷ 117 ∷ 101 ∷ 95 ∷ 116 ∷ 121 ∷ 112 ∷ 101 ∷ 44 ∷ 97
    ∷ 108 ∷ 108 ∷ 111 ∷ 99 ∷ 95 ∷ 116 ∷ 121 ∷ 112 ∷ 101 ∷ 44 ∷ 113 ∷ 117 ∷ 101 ∷ 117 ∷ 101 ∷ 95
    ∷ 109 ∷ 115 ∷ 44 ∷ 112 ∷ 114 ∷ 101 ∷ 112 ∷ 114 ∷ 111 ∷ 99 ∷ 101 ∷ 115 ∷ 115 ∷ 95 ∷ 109 ∷ 115
    ∷ 44 ∷ 105 ∷ 110 ∷ 102 ∷ 101 ∷ 114 ∷ 101 ∷ 110 ∷ 99 ∷ 101 ∷ 95 ∷ 109 ∷ 115 ∷ 44 ∷ 112 ∷ 111
    ∷ 115 ∷ 116 ∷ 112 ∷ 114 ∷ 111 ∷ 99 ∷ 101 ∷ 115 ∷ 115 ∷ 95 ∷ 109 ∷ 115 ∷ 44 ∷ 116 ∷ 111 ∷ 116
    ∷ 97 ∷ 108 ∷ 95 ∷ 109 ∷ 115 ∷ 10 ∷ []

-- How the stream prints an integer, and a duration with four decimals.
pub record Format : Type 0 where
  pub integer : ℕ → Text
  pub fixed_4 : ℕ → Text

abbrev pub comma : Text
comma = 44 ∷ []

abbrev pub total_of : InferenceTrace → ℕ
total_of t = t.queue_wait_ms + t.preprocess_ms + t.inference_ms + t.postprocess_ms

-- One row, with the time at which it is written.
unfoldable pub row : Format → QueueType → AllocatorType → (now : ℕ) → InferenceTrace → Text
row f queue_type alloc_type now t =
    f.integer now
    ++ comma
    ++ f.integer t.request_id
    ++ comma
    ++ queue_name queue_type
    ++ comma
    ++ allocator_name alloc_type
    ++ comma
    ++ f.fixed_4 t.queue_wait_ms
    ++ comma
    ++ f.fixed_4 t.preprocess_ms
    ++ comma
    ++ f.fixed_4 t.inference_ms
    ++ comma
    ++ f.fixed_4 t.postprocess_ms
    ++ comma
    ++ f.fixed_4 (total_of t)
    ++ (10 ∷ [])

module _ (f : Format) (queue_type : QueueType) (alloc_type : AllocatorType) where
  -- `none` is a missing file; `opens` says whether it can be opened to append.
  unfoldable pub save_to_csv : (opens : Bool) (now : ℕ) → InferenceTrace → Option Text → Option Text
  save_to_csv false now trace file = file
  save_to_csv true now trace none = some (header ++ row f queue_type alloc_type now trace)
  save_to_csv true now trace (some []) = some (header ++ row f queue_type alloc_type now trace)
  save_to_csv true now trace (some (b ∷ bs)) =
      some ((b ∷ bs) ++ row f queue_type alloc_type now trace)

  -- Traces saved one after another, each at its time.
  unfoldable pub save_all : List (ℕ × InferenceTrace) → Option Text → Option Text
  save_all [] file = file
  save_all ((now, trace) ∷ traces) file = save_all traces (save_to_csv true now trace file)
