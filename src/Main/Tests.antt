-- ===== src/Main/Tests.antt =====
-- src/main.cpp: a start with the single-consumer queue and one address that can be bound.
use lumen_engine.Prelude.{ℕ, true, if◌then◌else◌, none, some, [], ◌∷◌, pos}
use lumen_engine.Memory.Arena.{thrown, no_memory}
use lumen_engine.Engine.Metadata.{made, on_heap}
use lumen_engine.Utils.Config.{Json, same_text, new_config, load_from_file}
use lumen_engine.Utils.Texts.{text_engine, text_queue_type, text_spsc}
use lumen_engine.Main.{Environment, main}
use lumen_engine.Main.Safety.{StartsWell, main-StartsWell}

-- {"engine": {"queue_type": "spsc"}}
abbrev spsc_json : Json ℕ
spsc_json = record {
  parse = λ file. some 0;
  contains = λ j key. same_text key text_engine;
  at = λ j key. 1;
  get_size = λ j. none;
  get_text = λ j. none;
  value = λ j key default. some (if same_text key text_queue_type then text_spsc else default);
  object = λ key text. 0;
}

abbrev environment : Environment ℕ
environment = record {
  json = spsc_json;
  config_file = some (123 ∷ 125 ∷ []);
  labels_file = λ path. some ((97 ∷ []) ∷ []);
  hardware_concurrency = 4;
  new_arena = λ i capacity. thrown no_memory;
  new_engine = λ path i allocator. made (on_heap [] []);
  addresses =
      some (record { socket = pos 3; gets_flags = true; sets_flags = true; binds = true } ∷ []);
  listens = true;
}

main-StartsWell_example :
    StartsWell environment
      (load_from_file spsc_json (some (123 ∷ 125 ∷ [])) (new_config spsc_json))
      (main environment)
main-StartsWell_example = main-StartsWell environment
