-- ===== src/Utils/Config/Load.antt =====
-- `load_from_file` of src/LumenConfigManager.cpp and the settings that depend on each other.
use lumen_engine.Prelude.{ℕ, ◌<◌, ◌≡◌, refl, sym, subst, if_elim, Option, none, some, arith, ltb}
use lumen_engine.Core.Types.{Text}
use lumen_engine.Utils.Config.{
  QueueType, same_text, Json, ConfigManager, Outcome, went_on, threw, and_then, settled, assign,
  new_config, assign_size, choose_queue, choose_alloc, choose_proc, load_engine, load_model,
  load_json, load_from_file,
}
use lumen_engine.Utils.Texts.{
  text_spsc, text_mpmc, text_thread_count, text_batch_size, text_metadata, text_engine, text_model,
}

-- The queue for one consumer comes with one worker, and the batched queue with batches.
abbrev pub Fits : QueueType → (thread_count batch_size : ℕ) → Type 0
Fits QueueType.spsc threads batch = threads ≡ 1
Fits QueueType.batched threads batch = 1 < batch
Fits QueueType.naive_mutex threads batch = Unit
Fits QueueType.mpmc threads batch = Unit

module _ {J : Type 0} where
  abbrev pub IsSound : ConfigManager J → Type 0
  IsSound c = Fits c.queue_type c.thread_count c.batch_size

  abbrev Untouched : ConfigManager J → Type 0
  Untouched c = c.queue_type ≡ QueueType.naive_mutex

  -- What holds after a part that went through, and what after one that threw.
  data Ends (P Q : ConfigManager J → Type 0) : Outcome (ConfigManager J) → Type 0 where
    ended : {c : ConfigManager J} → P c → Ends P Q (went_on c)
    stopped : {c : ConfigManager J} → Q c → Ends P Q (threw c)

  and_then-Ends :
      (P P' Q : ConfigManager J → Type 0) (o : Outcome (ConfigManager J))
      (f : ConfigManager J → Outcome (ConfigManager J))
      → Ends P Q o
      → ((c : ConfigManager J) → P c → Ends P' Q (f c))
      → Ends P' Q (and_then o f)
  unfolding and_then
  and_then-Ends P P' Q (went_on c) f (ended h) step = step c h
  and_then-Ends P P' Q (threw c) f (stopped h) step = stopped h

  assign-Ends :
      {B : Type 0} (P' Q : ConfigManager J → Type 0) (o : Option B)
      (f : B → ConfigManager J → ConfigManager J) (c : ConfigManager J)
      → Q c
      → ((x : B) → P' (f x c))
      → Ends P' Q (assign o f c)
  unfolding assign
  assign-Ends P' Q none f c q step = stopped q
  assign-Ends P' Q (some x) f c q step = ended (step x)

  Untouched-IsSound : (c : ConfigManager J) → Untouched c → IsSound c
  Untouched-IsSound c e = subst (λ q. Fits q c.thread_count c.batch_size) (sym e) tt

  choose_queue-IsSound :
      (json : Json J) (q_type : Text) (c : ConfigManager J) → IsSound (choose_queue json q_type c)
  unfolding choose_queue
  choose_queue-IsSound json q_type c =
      if_elim IsSound (same_text q_type text_spsc) (λ _. refl)
        (λ _.
          if_elim IsSound (same_text q_type text_mpmc) (λ _. tt)
            (λ _. if_elim IsSound (ltb 1 c.batch_size) (λ more. ground arith) (λ _. tt)))

  assign_size-Ends :
      (json : Json J) (eng : J) (key : Text) (f : ℕ → ConfigManager J → ConfigManager J)
      (c : ConfigManager J)
      → Untouched c
      → ((n : ℕ) → Untouched (f n c))
      → Ends Untouched IsSound (assign_size json eng key f c)
  unfolding assign_size
  assign_size-Ends json eng key f c e keeps =
      if_elim (Ends Untouched IsSound) (json.contains eng key)
        (λ _.
          assign-Ends Untouched IsSound (json.get_size (json.at eng key)) f c
            (Untouched-IsSound c e) keeps)
        (λ _. ended e)

  load_engine-Ends :
      (json : Json J) (eng : J) (c : ConfigManager J)
      → Untouched c
      → Ends IsSound IsSound (load_engine json eng c)
  unfolding load_engine choose_alloc
  load_engine-Ends json eng c e =
      and_then-Ends Untouched IsSound IsSound _ _
        (assign_size-Ends json eng text_thread_count _ c e (λ n. e))
        (λ c e.
          and_then-Ends Untouched IsSound IsSound _ _
            (assign_size-Ends json eng text_batch_size _ c e (λ n. e))
            (λ c e.
              and_then-Ends IsSound IsSound IsSound _ _
                (assign-Ends IsSound IsSound _ _ c (Untouched-IsSound c e)
                  (λ q_type. choose_queue-IsSound json q_type c))
                (λ c h.
                  and_then-Ends IsSound IsSound IsSound _ _
                    (assign-Ends IsSound IsSound _ _ c h (λ a_type. h))
                    (λ c h. assign-Ends IsSound IsSound _ _ c h (λ path. h)))))

  load_model-Ends :
      (json : Json J) (model : J) (c : ConfigManager J)
      → IsSound c
      → Ends IsSound IsSound (load_model json model c)
  unfolding load_model choose_proc
  load_model-Ends json model c h =
      and_then-Ends IsSound IsSound IsSound _ _ (assign-Ends IsSound IsSound _ _ c h (λ path. h))
        (λ c h.
          and_then-Ends IsSound IsSound IsSound _ _
            (assign-Ends IsSound IsSound _ _ c h (λ p_type. h))
            (λ c h. ended (if_elim IsSound (json.contains model text_metadata) (λ _. h) (λ _. h))))

  load_json-Ends :
      (json : Json J) (o : Option J) (c : ConfigManager J)
      → Untouched c
      → Ends IsSound IsSound (load_json json o c)
  unfolding load_json
  load_json-Ends json none c e = stopped (Untouched-IsSound c e)
  load_json-Ends json (some j) c e =
      and_then-Ends IsSound IsSound IsSound _ _
        (if_elim (Ends IsSound IsSound) (json.contains j text_engine)
          (λ _. load_engine-Ends json (json.at j text_engine) c e)
          (λ _. ended (Untouched-IsSound c e)))
        (λ c h.
          if_elim (Ends IsSound IsSound) (json.contains j text_model)
            (λ _. load_model-Ends json (json.at j text_model) c h) (λ _. ended h))

  settled-IsSound : (o : Outcome (ConfigManager J)) → Ends IsSound IsSound o → IsSound (settled o)
  settled-IsSound (went_on c) (ended h) = h
  settled-IsSound (threw c) (stopped h) = h

  -- Whatever the file holds, and wherever reading it throws: the settings that the program starts
  -- with and then loads choose the single-consumer queue only with one worker, and the batched
  -- queue only with batches of more than one task.
  pub load_from_file-IsSound :
      (json : Json J) (file : Option Text) → IsSound (load_from_file json file (new_config json))
  unfolding load_from_file new_config
  load_from_file-IsSound json none = tt
  load_from_file-IsSound json (some file) =
      settled-IsSound (load_json json (json.parse file) (new_config json))
        (load_json-Ends json (json.parse file) (new_config json) refl)
