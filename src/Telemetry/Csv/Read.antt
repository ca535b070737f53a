-- ===== src/Telemetry/Csv/Read.antt =====
-- The file of `save_to_csv` in src/TelemetryManager.cpp, as a reader of comma-separated values sees
-- it.
use lumen_engine.Prelude.{
  arith, Bool-cases, inl, inr, ℕ, ◌+◌, ◌≡◌, refl, sym, ap, ◌∙◌, false, Option, none, some, List, [],
  ◌∷◌, ◌++◌, map, append-nil, append_assoc, if◌then◌else◌, ◌==◌,
}
use lumen_engine.Core.Types.{Text, InferenceTrace}
use lumen_engine.Utils.Config.{
  QueueType, spsc, mpmc, batched, naive_mutex, AllocatorType, lumen_arena, standard,
}
use lumen_engine.Telemetry.Csv.{
  queue_name, allocator_name, header, Format, total_of, row, save_to_csv, save_all,
}

-- A reader: the lines that a newline ends, each as its fields between the commas. `field` and
-- `fields` are what has been read of the line.
pub read_lines : Text → (field : Text) (fields : List Text) → List (List Text)
read_lines [] field fields = []
read_lines (c ∷ file) field fields =
    let ended = read_lines file [] [] in
    let separated = read_lines file [] (fields ++ (field ∷ [])) in
    let longer = read_lines file (field ++ (c ∷ [])) fields in
    if c == 10 then (fields ++ (field ∷ [])) ∷ ended else if c == 44 then separated else longer

abbrev pub read_csv : Text → List (List Text)
read_csv file = read_lines file [] []

-- A text with no comma and no newline.
abbrev pub IsField : Text → Type 0
IsField [] = Unit
IsField (c ∷ text) = ((c == 10) ≡ false) × ((c == 44) ≡ false) × IsField text

abbrev AllFields : List Text → Type 0
AllFields [] = Unit
AllFields (text ∷ texts) = IsField text × AllFields texts

-- "timestamp", "request_id", "queue_type", "alloc_type", "queue_ms", "preprocess_ms",
-- "inference_ms", "postprocess_ms" and "total_ms"
abbrev pub column_names : List Text
column_names =
    (116 ∷ 105 ∷ 109 ∷ 101 ∷ 115 ∷ 116 ∷ 97 ∷ 109 ∷ 112 ∷ [])
    ∷ (114 ∷ 101 ∷ 113 ∷ 117 ∷ 101 ∷ 115 ∷ 116 ∷ 95 ∷ 105 ∷ 100 ∷ [])
    ∷ (113 ∷ 117 ∷ 101 ∷ 117 ∷ 101 ∷ 95 ∷ 116 ∷ 121 ∷ 112 ∷ 101 ∷ [])
    ∷ (97 ∷ 108 ∷ 108 ∷ 111 ∷ 99 ∷ 95 ∷ 116 ∷ 121 ∷ 112 ∷ 101 ∷ [])
    ∷ (113 ∷ 117 ∷ 101 ∷ 117 ∷ 101 ∷ 95 ∷ 109 ∷ 115 ∷ [])
    ∷ (112 ∷ 114 ∷ 101 ∷ 112 ∷ 114 ∷ 111 ∷ 99 ∷ 101 ∷ 115 ∷ 115 ∷ 95 ∷ 109 ∷ 115 ∷ [])
    ∷ (105 ∷ 110 ∷ 102 ∷ 101 ∷ 114 ∷ 101 ∷ 110 ∷ 99 ∷ 101 ∷ 95 ∷ 109 ∷ 115 ∷ [])
    ∷ (112 ∷ 111 ∷ 115 ∷ 116 ∷ 112 ∷ 114 ∷ 111 ∷ 99 ∷ 101 ∷ 115 ∷ 115 ∷ 95 ∷ 109 ∷ 115 ∷ [])
    ∷ (116 ∷ 111 ∷ 116 ∷ 97 ∷ 108 ∷ 95 ∷ 109 ∷ 115 ∷ [])
    ∷ []

-- The fields that a trace should have in the file.
abbrev pub trace_fields : Format → QueueType → AllocatorType → ℕ × InferenceTrace → List Text
trace_fields f queue_type alloc_type (now, t) =
    f.integer now
    ∷ f.integer t.request_id
    ∷ queue_name queue_type
    ∷ allocator_name alloc_type
    ∷ f.fixed_4 t.queue_wait_ms
    ∷ f.fixed_4 t.preprocess_ms
    ∷ f.fixed_4 t.inference_ms
    ∷ f.fixed_4 t.postprocess_ms
    ∷ f.fixed_4 (t.queue_wait_ms + t.preprocess_ms + t.inference_ms + t.postprocess_ms)
    ∷ []

read_field :
    (text rest field : Text) (fields : List Text)
    → IsField text
    → read_lines (text ++ rest) field fields ≡ read_lines rest (field ++ text) fields
unfolding read_lines
read_field [] rest field fields h = ap (λ l. read_lines rest l fields) (sym (append-nil field))
read_field (c ∷ text) rest field fields h =
    rw (h.0, h.1)
      (read_field text rest (field ++ (c ∷ [])) fields h.2
        ∙ ap (λ l. read_lines rest l fields) (append_assoc field (c ∷ []) text))

-- The text of a line with some fields, the first of them `text`.
line_of : Text → List Text → Text
line_of text [] = text ++ (10 ∷ [])
line_of text (next ∷ texts) = text ++ (44 ∷ line_of next texts)

read_line :
    (text : Text) (texts fields : List Text) (rest : Text)
    → IsField text
    → AllFields texts
    → read_lines (line_of text texts ++ rest) [] fields ≡ (fields ++ (text ∷ texts)) ∷ read_csv rest
unfolding line_of read_lines
read_line text [] fields rest h hs =
    ap read_csv_from (append_assoc text (10 ∷ []) rest) ∙ read_field text (10 ∷ rest) [] fields h
  where
    read_csv_from : Text → List (List Text)
    read_csv_from file = read_lines file [] fields
read_line text (next ∷ texts) fields rest h hs =
    ap (λ file. read_lines file [] fields) (append_assoc text (44 ∷ line_of next texts) rest)
    ∙ read_field text (44 ∷ (line_of next texts ++ rest)) [] fields h
    ∙ read_line next texts (fields ++ (text ∷ [])) rest hs.0 hs.1
    ∙ ap (λ l. l ∷ read_csv rest) (append_assoc fields (text ∷ []) (next ∷ texts))

-- After a newline, the reader starts afresh.
read_behind :
    (file rest field : Text) (fields : List Text)
    → read_lines ((file ++ (10 ∷ [])) ++ rest) field fields
      ≡ read_lines (file ++ (10 ∷ [])) field fields ++ read_csv rest
unfolding read_lines
read_behind [] rest field fields = refl
read_behind (c ∷ file) rest field fields =
    let ended = read_behind file rest [] [] in
    let separated = read_behind file rest [] (fields ++ (field ∷ [])) in
    let longer = read_behind file rest (field ++ (c ∷ [])) fields in
    elim (Bool-cases (c == 10)) [
      | inl newline ↦ rw newline (ap (λ l. (fields ++ (field ∷ [])) ∷ l) ended)
      | inr inside ↦ elim (Bool-cases (c == 44)) [
        | inl comma ↦ rw (inside, comma) separated
        | inr plain ↦ rw (inside, plain) longer
      ]
    ]

queue_name-IsField : (q : QueueType) → IsField (queue_name q)
queue_name-IsField spsc = ground arith
queue_name-IsField mpmc = ground arith
queue_name-IsField batched = ground arith
queue_name-IsField naive_mutex = ground arith

allocator_name-IsField : (a : AllocatorType) → IsField (allocator_name a)
allocator_name-IsField lumen_arena = ground arith
allocator_name-IsField standard = ground arith

module _ (f : Format) (queue_type : QueueType) (alloc_type : AllocatorType)
    (integers : (n : ℕ) → IsField (f.integer n)) (numbers : (n : ℕ) → IsField (f.fixed_4 n)) where
  row-line_of :
      (now : ℕ) (t : InferenceTrace)
      → row f queue_type alloc_type now t
        ≡ line_of (f.integer now) (
            f.integer t.request_id
            ∷ queue_name queue_type
            ∷ allocator_name alloc_type
            ∷ f.fixed_4 t.queue_wait_ms
            ∷ f.fixed_4 t.preprocess_ms
            ∷ f.fixed_4 t.inference_ms
            ∷ f.fixed_4 t.postprocess_ms
            ∷ f.fixed_4 (total_of t)
            ∷ [])
  unfolding row line_of
  row-line_of now t = simp append_assoc

  read_row :
      (now : ℕ) (t : InferenceTrace) (rest : Text)
      → read_csv (row f queue_type alloc_type now t ++ rest)
        ≡ trace_fields f queue_type alloc_type (now, t) ∷ read_csv rest
  read_row now t rest =
      ap (λ line. read_csv (line ++ rest)) (row-line_of now t)
      ∙ read_line (f.integer now) _ [] rest (integers now) (
        integers t.request_id,
        (
          queue_name-IsField queue_type,
          (
            allocator_name-IsField alloc_type,
            (
              numbers t.queue_wait_ms,
              (
                numbers t.preprocess_ms,
                (numbers t.inference_ms, (numbers t.postprocess_ms, (numbers (total_of t), tt))),
              ),
            ),
          ),
        ),
      )

  read_header : (rest : Text) → read_csv (header ++ rest) ≡ column_names ∷ read_csv rest
  unfolding read_lines
  read_header rest = refl

  rows : List (ℕ × InferenceTrace) → Text
  rows [] = []
  rows ((now, trace) ∷ traces) = row f queue_type alloc_type now trace ++ rows traces

  read_rows :
      (traces : List (ℕ × InferenceTrace))
      → read_csv (rows traces) ≡ map (trace_fields f queue_type alloc_type) traces
  unfolding rows read_lines
  read_rows [] = refl
  read_rows ((now, trace) ∷ traces) =
      read_row now trace (rows traces)
      ∙ ap (λ l. trace_fields f queue_type alloc_type (now, trace) ∷ l) (read_rows traces)

  save_all_open :
      (traces : List (ℕ × InferenceTrace)) (b : ℕ) (bs : Text)
      → save_all f queue_type alloc_type traces (some (b ∷ bs)) ≡ some ((b ∷ bs) ++ rows traces)
  unfolding save_all save_to_csv rows
  save_all_open [] b bs = ap some (sym (append-nil (b ∷ bs)))
  save_all_open ((now, trace) ∷ traces) b bs =
      save_all_open traces b (bs ++ row f queue_type alloc_type now trace)
      ∙ ap some (append_assoc (b ∷ bs) (row f queue_type alloc_type now trace) (rows traces))

  save_all_behind :
      (traces : List (ℕ × InferenceTrace)) (file : Text)
      → save_all f queue_type alloc_type traces (some (file ++ (10 ∷ [])))
        ≡ some ((file ++ (10 ∷ [])) ++ rows traces)
  save_all_behind traces [] = save_all_open traces 10 []
  save_all_behind traces (b ∷ bs) = save_all_open traces b (bs ++ (10 ∷ []))

  save_all_fresh :
      (now : ℕ) (trace : InferenceTrace) (traces : List (ℕ × InferenceTrace))
      → save_all f queue_type alloc_type traces
          (some (header ++ row f queue_type alloc_type now trace))
        ≡ some (header ++ rows ((now, trace) ∷ traces))
  unfolding rows
  save_all_fresh now trace traces =
      save_all_open traces _ _
      ∙ ap some (append_assoc header (row f queue_type alloc_type now trace) (rows traces))

  abbrev pub read_file : Option Text → Option (List (List Text))
  read_file none = none
  read_file (some file) = some (read_csv file)

  read_fresh :
      (traces : List (ℕ × InferenceTrace))
      → read_csv (header ++ rows traces)
        ≡ column_names ∷ map (trace_fields f queue_type alloc_type) traces
  read_fresh traces = read_header (rows traces) ∙ ap (λ l. column_names ∷ l) (read_rows traces)

  -- If the stream prints numbers with no comma and no newline, and the file can be opened, then after
  -- saving any traces, at least one, a reader of comma-separated values finds for each trace, in
  -- order, one line with its nine fields: the time, the request, the names of the queue and of the
  -- allocator, the four durations and their sum. If the file was missing or empty, the line of the
  -- nine column names comes before them, once; if it ended with a newline, the lines that it had.
  pub save_all_lem :
      (now : ℕ) (trace : InferenceTrace) (traces : List (ℕ × InferenceTrace)) (file : Text)
      → let all = (now, trace) ∷ traces in
        let lines = map (trace_fields f queue_type alloc_type) all in
        (read_file (save_all f queue_type alloc_type all none) ≡ some (column_names ∷ lines))
        × (read_file (save_all f queue_type alloc_type all (some [])) ≡ some (column_names ∷ lines))
        × (read_file (save_all f queue_type alloc_type all (some (file ++ (10 ∷ []))))
            ≡ some (read_csv (file ++ (10 ∷ [])) ++ lines))
  unfolding save_all save_to_csv
  save_all_lem now trace traces file =
      let all = (now, trace) ∷ traces in
      let fresh = ap read_file (save_all_fresh now trace traces) ∙ ap some (read_fresh all) in
      (
        fresh,
        fresh,
        ap read_file (save_all_behind all file)
            ∙ ap some (
                read_behind file (rows all) [] []
                ∙ ap (λ l. read_csv (file ++ (10 ∷ [])) ++ l) (read_rows all)),
      )
