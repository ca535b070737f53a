-- ===== src/Utils/Config/Template.antt =====
-- `save_template` of src/LumenConfigManager.cpp. The values of the JSON library are made by an
-- argument, and the files are a function of their paths.
use lumen_engine.Prelude.{ℕ, Bool, Option, some, List, [], ◌∷◌, if◌then◌else◌}
use lumen_engine.Core.Types.{Text}
use lumen_engine.Utils.Config.{same_text}
use lumen_engine.Utils.Texts.{
  text_engine, text_thread_count, text_batch_size, text_queue_type, text_naive_mutex,
  text_allocator_type, text_standard, text_telemetry_csv_path, text_baseline_csv, text_model,
  text_path, text_processor_type, text_imagenet, text_metadata, text_label_path, text_type,
  text_classification, text_template_model, text_synset_words,
}

-- What `save_template` uses of the JSON library: the values of braced lists, texts and numbers, and
-- `dump` with an indentation.
pub record JsonWriter (J : Type 0) : Type 0 where
  pub text : Text → J
  pub number : ℕ → J
  pub object : List (Text × J) → J
  pub dump : ℕ → J → Text

-- The files by their paths; `none` is a path that cannot be opened for reading.
abbrev pub Files : Type 0
Files = Text → Option Text

module _ {J : Type 0} (writer : JsonWriter J) where
  abbrev pub engine_members : List (Text × J)
  engine_members =
      (text_queue_type, writer.text text_naive_mutex)
      ∷ (text_allocator_type, writer.text text_standard)
      ∷ (text_thread_count, writer.number 0)
      ∷ (text_batch_size, writer.number 1)
      ∷ (text_telemetry_csv_path, writer.text text_baseline_csv)
      ∷ []

  abbrev pub metadata_members : List (Text × J)
  metadata_members =
      (text_type, writer.text text_classification)
      ∷ (text_label_path, writer.text text_synset_words)
      ∷ []

  abbrev pub model_members : List (Text × J)
  model_members =
      (text_path, writer.text text_template_model)
      ∷ (text_processor_type, writer.text text_imagenet)
      ∷ (text_metadata, writer.object metadata_members)
      ∷ []

  abbrev pub template : J
  template =
      writer.object (
        (text_engine, writer.object engine_members)
        ∷ (text_model, writer.object model_members)
        ∷ [])

  -- `can_open` tells whether a path can be opened for writing; if not, nothing is written.
  unfoldable pub save_template : (Text → Bool) → Text → Files → Files
  save_template can_open path files other =
      if can_open path
      then if same_text other path then some (writer.dump 4 template) else files other
      else files other
