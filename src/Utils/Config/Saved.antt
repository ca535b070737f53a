-- ===== src/Utils/Config/Saved.antt =====
-- `save_template` and `load_from_file` of src/LumenConfigManager.cpp together: what the JSON library
-- documents of the values that it made itself, and the settings that the template stands for.
use lumen_engine.Prelude.{
  ℕ, Bool, true, false, ◌≡◌, refl, ap, ◌∙◌, ==_iff, Option, none, some, List, [], ◌∷◌,
  if◌then◌else◌,
}
use lumen_engine.Core.Types.{Text}
use lumen_engine.Utils.Config.{
  QueueType, AllocatorType, ProcessorType, same_text, Json, ConfigManager, Outcome, went_on,
  and_then, assign, get_metadata_extra, assign_size, choose_queue, choose_alloc, choose_proc,
  load_engine, load_model, load_json, load_from_file,
}
use lumen_engine.Utils.Config.Template.{
  JsonWriter, Files, engine_members, metadata_members, model_members, template, save_template,
}
use lumen_engine.Utils.Texts.{
  text_engine, text_thread_count, text_batch_size, text_queue_type, text_naive_mutex,
  text_allocator_type, text_standard, text_telemetry_csv_path, text_baseline_csv, text_model,
  text_path, text_processor_type, text_imagenet, text_metadata, text_label_path,
  text_template_model, text_synset_words,
}

-- The member of a braced list under a key: the first one counts.
abbrev pub member : {J : Type 0} → Text → List (Text × J) → Option J
member key [] = none
member key ((other, j) ∷ rest) = if same_text key other then some j else member key rest

abbrev pub is_some : {A : Type 0} → Option A → Bool
is_some none = false
is_some (some a) = true

-- What the library documents: a value that it made is read as what it was made of, `value` reads the
-- member if there is one, and `>>` reads back the template that `dump` has written.
pub record ReadsWritten {J : Type 0} (json : Json J) (writer : JsonWriter J) : Type 0 where
  pub contains-object :
      (fields : List (Text × J)) (key : Text)
      → json.contains (writer.object fields) key ≡ is_some (member key fields)
  pub at-object :
      (fields : List (Text × J)) (key : Text) (j : J)
      → member key fields ≡ some j
      → json.at (writer.object fields) key ≡ j
  pub value-contains :
      (j : J) (key default : Text)
      → json.contains j key ≡ true
      → json.value j key default ≡ json.get_text (json.at j key)
  pub get_text-text : (t : Text) → json.get_text (writer.text t) ≡ some t
  pub get_size-number : (n : ℕ) → json.get_size (writer.number n) ≡ some n
  pub parse-dump : json.parse (writer.dump 4 (template writer)) ≡ some (template writer)

-- The settings that the template stands for; none is left from before.
abbrev pub template_settings : {J : Type 0} → JsonWriter J → ConfigManager J
template_settings writer = record {
  queue_type = QueueType.naive_mutex;
  alloc_type = AllocatorType.standard;
  proc_type = ProcessorType.imagenet;
  telemetry_path = text_baseline_csv;
  model_path = text_template_model;
  metadata = writer.object (metadata_members writer);
  thread_count = 0;
  batch_size = 1;
}

pub same_text_refl : (t : Text) → same_text t t ≡ true
same_text_refl [] = refl
same_text_refl (a ∷ t) = rw ((==_iff a a).1 refl, same_text_refl t)

module _ {J : Type 0} (json : Json J) (writer : JsonWriter J)
    (laws : ReadsWritten json writer) where
  value-object :
      (fields : List (Text × J)) (key default t : Text)
      → member key fields ≡ some (writer.text t)
      → json.value (writer.object fields) key default ≡ some t
  value-object fields key default t e =
      laws.value-contains (writer.object fields) key default
        (laws.contains-object fields key ∙ ap is_some e)
      ∙ ap json.get_text (laws.at-object fields key (writer.text t) e)
      ∙ laws.get_text-text t

  assign_size-object :
      (fields : List (Text × J)) (key : Text) (f : ℕ → ConfigManager J → ConfigManager J) (n : ℕ)
      (c : ConfigManager J)
      → member key fields ≡ some (writer.number n)
      → assign_size json (writer.object fields) key f c ≡ went_on (f n c)
  unfolding assign_size assign
  assign_size-object fields key f n c e = rw (
    laws.contains-object fields key,
    e,
    laws.at-object fields key (writer.number n) e,
    laws.get_size-number n,
  )

  and_then-object :
      {B : Type 0} (o : Option B) (x : B) (f : B → ConfigManager J → ConfigManager J)
      (c : ConfigManager J) (rest : ConfigManager J → Outcome (ConfigManager J))
      → o ≡ some x
      → and_then (assign o f c) rest ≡ rest (f x c)
  unfolding and_then assign
  and_then-object o x f c rest e = ap (λ o. and_then (assign o f c) rest) e

  and_then-size :
      (fields : List (Text × J)) (key : Text) (f : ℕ → ConfigManager J → ConfigManager J) (n : ℕ)
      (c : ConfigManager J) (rest : ConfigManager J → Outcome (ConfigManager J))
      → member key fields ≡ some (writer.number n)
      → and_then (assign_size json (writer.object fields) key f c) rest ≡ rest (f n c)
  unfolding and_then
  and_then-size fields key f n c rest e =
      ap (λ o. and_then o rest) (assign_size-object fields key f n c e)

  load_engine-template :
      (c : ConfigManager J)
      → load_engine json (writer.object (engine_members writer)) c
        ≡ went_on (record c {
          queue_type = QueueType.naive_mutex;
          alloc_type = AllocatorType.standard;
          telemetry_path = text_baseline_csv;
          thread_count = 0;
          batch_size = 1;
        })
  unfolding load_engine and_then assign choose_queue choose_alloc
  load_engine-template c =
      let members = engine_members writer in
      and_then-size members text_thread_count _ 0 c _ refl
      ∙ and_then-size members text_batch_size _ 1 _ _ refl
      ∙ and_then-object _ _ _ _ _
          (value-object members text_queue_type text_naive_mutex text_naive_mutex refl)
      ∙ and_then-object _ _ _ _ _
          (value-object members text_allocator_type text_standard text_standard refl)
      ∙ rw (value-object members text_telemetry_csv_path text_baseline_csv text_baseline_csv refl)

  load_model-template :
      (c : ConfigManager J)
      → load_model json (writer.object (model_members writer)) c
        ≡ went_on (record c {
          proc_type = ProcessorType.imagenet;
          model_path = text_template_model;
          metadata = writer.object (metadata_members writer);
        })
  unfolding load_model and_then assign choose_proc
  load_model-template c =
      let members = model_members writer in
      and_then-object _ _ _ _ _ (value-object members text_path [] text_template_model refl)
      ∙ and_then-object _ _ _ _ _
          (value-object members text_processor_type text_imagenet text_imagenet refl)
      ∙ rw (
        laws.contains-object members text_metadata,
        laws.at-object members text_metadata (writer.object (metadata_members writer)) refl,
      )

  load_json-template :
      (c : ConfigManager J)
      → load_json json (some (template writer)) c ≡ went_on (template_settings writer)
  unfolding load_json and_then
  load_json-template c = rw (
    laws.contains-object _ text_engine,
    laws.at-object _ text_engine (writer.object (engine_members writer)) refl,
    load_engine-template c,
    laws.contains-object _ text_model,
    laws.at-object _ text_model (writer.object (model_members writer)) refl,
    load_model-template _,
  )

  -- A template that is saved under a path that can be opened, and then loaded, sets every field to
  -- what it names, whatever the settings were before; the label path is then the one in it, and the
  -- files under other paths are as they were.
  pub load_from_file-save_template :
      (can_open : Text → Bool) (path : Text) (files : Files) (c : ConfigManager J)
      → can_open path ≡ true
      → (load_from_file json (save_template writer can_open path files path) c
          ≡ template_settings writer)
        × (get_metadata_extra json text_label_path (template_settings writer)
            ≡ some text_synset_words)
        × ((other : Text)
            → same_text other path ≡ false
            → save_template writer can_open path files other ≡ files other)
  unfolding load_from_file save_template get_metadata_extra
  load_from_file-save_template can_open path files c e = (
    rw (e, same_text_refl path, laws.parse-dump, load_json-template c),
    rw (
      laws.contains-object _ text_label_path,
      laws.at-object _ text_label_path (writer.text text_synset_words) refl,
      laws.get_text-text text_synset_words,
    ),
    λ other apart. rw (e, apart),
  )
