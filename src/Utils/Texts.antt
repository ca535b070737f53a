-- ===== src/Utils/Texts.antt =====
-- The texts of src/LumenConfigManager.cpp and its header, as their bytes.
use lumen_engine.Prelude.{[], ◌∷◌}
use lumen_engine.Core.Types.{Text}

-- "engine"
abbrev pub text_engine : Text
text_engine = 101 ∷ 110 ∷ 103 ∷ 105 ∷ 110 ∷ 101 ∷ []

-- "thread_count"
abbrev pub text_thread_count : Text
text_thread_count = 116 ∷ 104 ∷ 114 ∷ 101 ∷ 97 ∷ 100 ∷ 95 ∷ 99 ∷ 111 ∷ 117 ∷ 110 ∷ 116 ∷ []

-- "batch_size"
abbrev pub text_batch_size : Text
text_batch_size = 98 ∷ 97 ∷ 116 ∷ 99 ∷ 104 ∷ 95 ∷ 115 ∷ 105 ∷ 122 ∷ 101 ∷ []

-- "queue_type"
abbrev pub text_queue_type : Text
text_queue_type = 113 ∷ 117 ∷ 101 ∷ 117 ∷ 101 ∷ 95 ∷ 116 ∷ 121 ∷ 112 ∷ 101 ∷ []

-- "naive_mutex"
abbrev pub text_naive_mutex : Text
text_naive_mutex = 110 ∷ 97 ∷ 105 ∷ 118 ∷ 101 ∷ 95 ∷ 109 ∷ 117 ∷ 116 ∷ 101 ∷ 120 ∷ []

-- "spsc"
abbrev pub text_spsc : Text
text_spsc = 115 ∷ 112 ∷ 115 ∷ 99 ∷ []

-- "mpmc"
abbrev pub text_mpmc : Text
text_mpmc = 109 ∷ 112 ∷ 109 ∷ 99 ∷ []

-- "allocator_type"
abbrev pub text_allocator_type : Text
text_allocator_type =
    97 ∷ 108 ∷ 108 ∷ 111 ∷ 99 ∷ 97 ∷ 116 ∷ 111 ∷ 114 ∷ 95 ∷ 116 ∷ 121 ∷ 112 ∷ 101 ∷ []

-- "standard"
abbrev pub text_standard : Text
text_standard = 115 ∷ 116 ∷ 97 ∷ 110 ∷ 100 ∷ 97 ∷ 114 ∷ 100 ∷ []

-- "lumen_arena"
abbrev pub text_lumen_arena : Text
text_lumen_arena = 108 ∷ 117 ∷ 109 ∷ 101 ∷ 110 ∷ 95 ∷ 97 ∷ 114 ∷ 101 ∷ 110 ∷ 97 ∷ []

-- "telemetry_csv_path"
abbrev pub text_telemetry_csv_path : Text
text_telemetry_csv_path =
    116 ∷ 101 ∷ 108 ∷ 101 ∷ 109 ∷ 101 ∷ 116 ∷ 114 ∷ 121 ∷ 95 ∷ 99 ∷ 115 ∷ 118 ∷ 95 ∷ 112 ∷ 97 ∷ 116
    ∷ 104 ∷ []

-- "lumen_baseline.csv"
abbrev pub text_baseline_csv : Text
text_baseline_csv =
    108 ∷ 117 ∷ 109 ∷ 101 ∷ 110 ∷ 95 ∷ 98 ∷ 97 ∷ 115 ∷ 101 ∷ 108 ∷ 105 ∷ 110 ∷ 101 ∷ 46 ∷ 99 ∷ 115
    ∷ 118 ∷ []

-- "model"
abbrev pub text_model : Text
text_model = 109 ∷ 111 ∷ 100 ∷ 101 ∷ 108 ∷ []

-- "path"
abbrev pub text_path : Text
text_path = 112 ∷ 97 ∷ 116 ∷ 104 ∷ []

-- "processor_type"
abbrev pub text_processor_type : Text
text_processor_type =
    112 ∷ 114 ∷ 111 ∷ 99 ∷ 101 ∷ 115 ∷ 115 ∷ 111 ∷ 114 ∷ 95 ∷ 116 ∷ 121 ∷ 112 ∷ 101 ∷ []

-- "imagenet"
abbrev pub text_imagenet : Text
text_imagenet = 105 ∷ 109 ∷ 97 ∷ 103 ∷ 101 ∷ 110 ∷ 101 ∷ 116 ∷ []

-- "raw"
abbrev pub text_raw : Text
text_raw = 114 ∷ 97 ∷ 119 ∷ []

-- "detection"
abbrev pub text_detection : Text
text_detection = 100 ∷ 101 ∷ 116 ∷ 101 ∷ 99 ∷ 116 ∷ 105 ∷ 111 ∷ 110 ∷ []

-- "metadata"
abbrev pub text_metadata : Text
text_metadata = 109 ∷ 101 ∷ 116 ∷ 97 ∷ 100 ∷ 97 ∷ 116 ∷ 97 ∷ []

-- "label_path"
abbrev pub text_label_path : Text
text_label_path = 108 ∷ 97 ∷ 98 ∷ 101 ∷ 108 ∷ 95 ∷ 112 ∷ 97 ∷ 116 ∷ 104 ∷ []

-- "../results/lumen_baseline.csv"
abbrev pub text_default_csv : Text
text_default_csv =
    46 ∷ 46 ∷ 47 ∷ 114 ∷ 101 ∷ 115 ∷ 117 ∷ 108 ∷ 116 ∷ 115 ∷ 47 ∷ 108 ∷ 117 ∷ 109 ∷ 101 ∷ 110 ∷ 95
    ∷ 98 ∷ 97 ∷ 115 ∷ 101 ∷ 108 ∷ 105 ∷ 110 ∷ 101 ∷ 46 ∷ 99 ∷ 115 ∷ 118 ∷ []

-- "../models/squeezenet1.1-7.onnx"
abbrev pub text_default_model : Text
text_default_model =
    46 ∷ 46 ∷ 47 ∷ 109 ∷ 111 ∷ 100 ∷ 101 ∷ 108 ∷ 115 ∷ 47 ∷ 115 ∷ 113 ∷ 117 ∷ 101 ∷ 101 ∷ 122 ∷ 101
    ∷ 110 ∷ 101 ∷ 116 ∷ 49 ∷ 46 ∷ 49 ∷ 45 ∷ 55 ∷ 46 ∷ 111 ∷ 110 ∷ 110 ∷ 120 ∷ []

-- "type"
abbrev pub text_type : Text
text_type = 116 ∷ 121 ∷ 112 ∷ 101 ∷ []

-- "classification"
abbrev pub text_classification : Text
text_classification =
    99 ∷ 108 ∷ 97 ∷ 115 ∷ 115 ∷ 105 ∷ 102 ∷ 105 ∷ 99 ∷ 97 ∷ 116 ∷ 105 ∷ 111 ∷ 110 ∷ []

-- "models/squeezenet1.1.onnx"
abbrev pub text_template_model : Text
text_template_model =
    109 ∷ 111 ∷ 100 ∷ 101 ∷ 108 ∷ 115 ∷ 47 ∷ 115 ∷ 113 ∷ 117 ∷ 101 ∷ 101 ∷ 122 ∷ 101 ∷ 110 ∷ 101
    ∷ 116 ∷ 49 ∷ 46 ∷ 49 ∷ 46 ∷ 111 ∷ 110 ∷ 110 ∷ 120 ∷ []

-- "models/synset_words.txt"
abbrev pub text_synset_words : Text
text_synset_words =
    109 ∷ 111 ∷ 100 ∷ 101 ∷ 108 ∷ 115 ∷ 47 ∷ 115 ∷ 121 ∷ 110 ∷ 115 ∷ 101 ∷ 116 ∷ 95 ∷ 119 ∷ 111
    ∷ 114 ∷ 100 ∷ 115 ∷ 46 ∷ 116 ∷ 120 ∷ 116 ∷ []
