-- ===== src/Utils/Config.antt =====
-- src/LumenConfigManager.cpp and include/lumen/utils/LumenConfigManager.hpp: the settings, and how
-- a JSON file changes them. The JSON library is an argument.
pub mod Load
pub mod Template
pub mod Saved
use lumen_engine.Prelude.{
  ℕ, Bool, true, false, ◌&&◌, Option, none, some, List, [], ◌∷◌, if◌then◌else◌, ltb, ◌==◌,
}
use lumen_engine.Core.Types.{Text}
use lumen_engine.Utils.Texts.{
  text_engine, text_thread_count, text_batch_size, text_queue_type, text_naive_mutex, text_spsc,
  text_mpmc, text_allocator_type, text_standard, text_lumen_arena, text_telemetry_csv_path,
  text_baseline_csv, text_model, text_path, text_processor_type, text_imagenet, text_raw,
  text_detection, text_metadata, text_label_path, text_default_csv, text_default_model,
}

pub data QueueType : Type 0 where
  naive_mutex : QueueType
  batched : QueueType
  spsc : QueueType
  mpmc : QueueType

pub data AllocatorType : Type 0 where
  standard : AllocatorType
  lumen_arena : AllocatorType

pub data ProcessorType : Type 0 where
  imagenet : ProcessorType
  raw_tensor : ProcessorType
  object_detection : ProcessorType

abbrev pub same_text : Text → Text → Bool
same_text [] [] = true
same_text (a ∷ rest) (b ∷ others) = a == b && same_text rest others
same_text _ _ = false

-- What the program uses of the JSON library: `file >> j`, `contains`, `operator[]` of a key that is
-- there, the conversions and `value`. `none` is an exception.
pub record Json (J : Type 0) : Type 0 where
  pub parse : Text → Option J
  pub contains : J → Text → Bool
  pub at : J → Text → J
  pub get_size : J → Option ℕ
  pub get_text : J → Option Text
  pub value : J → Text → Text → Option Text
  pub object : Text → Text → J

pub record ConfigManager (J : Type 0) : Type 0 where
  pub queue_type : QueueType
  pub alloc_type : AllocatorType
  pub proc_type : ProcessorType
  pub telemetry_path : Text
  pub model_path : Text
  pub metadata : J
  pub thread_count : ℕ
  pub batch_size : ℕ

-- A part of the `try` block went through, or threw and left the settings as they then were.
pub data Outcome (A : Type 0) : Type 0 where
  went_on : A → Outcome A
  threw : A → Outcome A

unfoldable pub and_then : {A : Type 0} → Outcome A → (A → Outcome A) → Outcome A
and_then (went_on c) f = f c
and_then (threw c) f = threw c

abbrev pub settled : {A : Type 0} → Outcome A → A
settled (went_on c) = c
settled (threw c) = c

-- An assignment of a value whose reading may throw.
unfoldable pub assign : {A B : Type 0} → Option B → (B → A → A) → A → Outcome A
assign none f c = threw c
assign (some x) f c = went_on (f x c)

module _ {J : Type 0} where
  unfoldable pub set_queue_type : QueueType → ConfigManager J → ConfigManager J
  set_queue_type type c = record c { queue_type = type }

  unfoldable pub set_alloc_type : AllocatorType → ConfigManager J → ConfigManager J
  set_alloc_type type c = record c { alloc_type = type }

  unfoldable pub set_telemetry_path : Text → ConfigManager J → ConfigManager J
  set_telemetry_path path c = record c { telemetry_path = path }

  unfoldable pub set_model_path : Text → ConfigManager J → ConfigManager J
  set_model_path path c = record c { model_path = path }

  unfoldable pub set_thread_count : ℕ → ConfigManager J → ConfigManager J
  set_thread_count count c = record c { thread_count = count }

  unfoldable pub set_batch_size : ℕ → ConfigManager J → ConfigManager J
  set_batch_size size c = record c { batch_size = size }

module _ {J : Type 0} (json : Json J) where
  unfoldable pub new_config : ConfigManager J
  new_config = record {
    queue_type = naive_mutex;
    alloc_type = standard;
    proc_type = imagenet;
    telemetry_path = text_default_csv;
    model_path = text_default_model;
    metadata = json.object text_label_path (
        46 ∷ 46 ∷ 47 ∷ 109 ∷ 111 ∷ 100 ∷ 101 ∷ 108 ∷ 115 ∷ 47 ∷ 108 ∷ 97 ∷ 98 ∷ 101 ∷ 108 ∷ 115 ∷ 46
        ∷ 116 ∷ 120 ∷ 116 ∷ []);
    thread_count = 0;
    batch_size = 1;
  }

  unfoldable pub get_metadata_extra : Text → ConfigManager J → Option Text
  get_metadata_extra key c =
      if json.contains c.metadata key then json.get_text (json.at c.metadata key) else some []

  -- `if (eng.contains(key)) member = eng[key];`
  unfoldable pub assign_size :
      J
      → Text
      → (ℕ → ConfigManager J → ConfigManager J)
      → ConfigManager J
      → Outcome (ConfigManager J)
  assign_size eng key f c =
      if json.contains eng key then assign (json.get_size (json.at eng key)) f c else went_on c

  unfoldable pub choose_queue : Text → ConfigManager J → ConfigManager J
  choose_queue q_type c =
      if same_text q_type text_spsc
      then record c { queue_type = spsc; thread_count = 1 }
      else if same_text q_type text_mpmc
      then record c { queue_type = mpmc }
      else if ltb 1 c.batch_size
      then record c { queue_type = batched }
      else record c { queue_type = naive_mutex }

  unfoldable pub choose_alloc : Text → ConfigManager J → ConfigManager J
  choose_alloc a_type c = record c {
    alloc_type = if same_text a_type text_lumen_arena then lumen_arena else standard;
  }

  unfoldable pub choose_proc : Text → ConfigManager J → ConfigManager J
  choose_proc p_type c = record c {
    proc_type =
        if same_text p_type text_raw
        then raw_tensor
        else if same_text p_type text_detection
        then object_detection
        else imagenet;
  }

  unfoldable pub load_engine : J → ConfigManager J → Outcome (ConfigManager J)
  load_engine eng c =
      and_then (assign_size eng text_thread_count (λ n c. record c { thread_count = n }) c) (λ c.
        and_then (assign_size eng text_batch_size (λ n c. record c { batch_size = n }) c) (λ c.
          and_then (assign (json.value eng text_queue_type text_naive_mutex) choose_queue c) (λ c.
            and_then (assign (json.value eng text_allocator_type text_standard) choose_alloc c)
              (λ c.
                assign (json.value eng text_telemetry_csv_path text_baseline_csv)
                  (λ path c. record c { telemetry_path = path }) c))))

  unfoldable pub load_model : J → ConfigManager J → Outcome (ConfigManager J)
  load_model model c =
      and_then (assign (json.value model text_path []) (λ path c. record c { model_path = path }) c)
        (λ c.
          and_then (assign (json.value model text_processor_type text_imagenet) choose_proc c) (λ c.
            went_on (
              if json.contains model text_metadata
              then record c { metadata = json.at model text_metadata }
              else c)))

  -- The body of the `try` block; `none` is a file that is no JSON.
  unfoldable pub load_json : Option J → ConfigManager J → Outcome (ConfigManager J)
  unfolding load_engine load_model
  load_json none c = threw c
  load_json (some j) c =
      and_then
        (if json.contains j text_engine then load_engine (json.at j text_engine) c else went_on c)
        (λ c. if json.contains j text_model then load_model (json.at j text_model) c else went_on c)

  -- `none` is a file that cannot be opened.
  unfoldable pub load_from_file : Option Text → ConfigManager J → ConfigManager J
  load_from_file none c = c
  load_from_file (some file) c = settled (load_json (json.parse file) c)
