-- ===== src/Utils/Tests.antt =====
-- A run of the configuration on a small JSON document.
use lumen_engine.Prelude.{ℕ, zero, suc, false, none, some, [], ◌∷◌, if◌then◌else◌}
use lumen_engine.Utils.Config.{Json, same_text, load_from_file, new_config}
use lumen_engine.Utils.Config.Load.{IsSound, load_from_file-IsSound}
use lumen_engine.Utils.Texts.{text_engine, text_thread_count, text_queue_type, text_spsc}

-- {"engine": {"thread_count": 4, "queue_type": "spsc"}}, whose parts are numbered 0, 1 and 2.
abbrev small_json : Json ℕ
small_json = record {
  parse = λ file. some 0;
  contains = λ j key. elim j [
    | zero ↦ same_text key text_engine
    | suc zero ↦ same_text key text_thread_count
    | suc (suc n) ↦ false
  ];
  at = λ j key. suc j;
  get_size = λ j. elim j [ zero ↦ none | suc zero ↦ none | suc (suc n) ↦ some 4 ];
  get_text = λ j. none;
  value = λ j key default. some (if same_text key text_queue_type then text_spsc else default);
  object = λ key text. 0;
}

load_from_file-IsSound_example :
    IsSound (load_from_file small_json (some (123 ∷ [])) (new_config small_json))
load_from_file-IsSound_example = load_from_file-IsSound small_json (some (123 ∷ []))
