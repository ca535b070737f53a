-- ===== src/Engine/Worker/Answers.antt =====
-- The batch loop of src/ThreadPool.cpp over `run` of src/InferenceEngine.cpp.
use lumen_engine.Prelude.{
  ℕ, ◌+◌, ◌*◌, ◌^◌, ◌≤◌, ◌<◌, ◌≡◌, sym, ap, ap₂, ◌∙◌, ◌&&◌, Bool-cases, inl, inr, Option, none,
  some, List, [], ◌∷◌, ◌++◌, append-nil, append_assoc, map, if◌then◌else◌, arith, length, ltb,
  mul_size,
}
use lumen_engine.Core.Types.{
  Text, InferenceTask, InferenceResult, new_result, PreProcessor, PostProcessor, imagenet_pre,
  imagenet_post,
}
use lumen_engine.Memory.Arena.{LumenArena, alloc, free, reset}
use lumen_engine.Memory.Arena.Alloc.{IsValid, AllSmall}
use lumen_engine.Memory.Arena.Steady.{IsSteady, reset_offset}
use lumen_engine.Memory.Arena.Typed.{lines}
use lumen_engine.Memory.Interface.{arena_allocator}
use lumen_engine.Queue.Result.{NaiveResultQueue, push}
use lumen_engine.Engine.Run.{
  InferenceEngine, Durations, Ran, answered, undefined, run, infer, grant_all, with_processors,
  input_count, output_count, stays_in, has_tensors, size_mismatch, label_of, timed,
}
use lumen_engine.Engine.Worker.{waited, serve_batch, serve_batch_with}
use lumen_engine.Engine.Worker.Room.{alloc_granted, total_lines, grant_all-granted, Roomy}

-- What the worker answers: the label that the model gives, or the message if the payload is short.
abbrev pub answer_of :
    {F : Type 0} → InferenceEngine F → List Text → ℕ × Durations × InferenceTask → InferenceResult
answer_of e labels (now, times, task) =
    let task' = waited now task in
    if ltb (length task'.bytes) (input_count e)
    then new_result task'.client_fd size_mismatch task'.trace
    else new_result task'.client_fd (label_of e labels task'.bytes) (timed times task'.trace)

abbrev pub Ready : List Text → List (ℕ × Durations × InferenceTask) → Type 0
Ready labels [] = Unit
Ready labels ((now, times, task) ∷ batch) =
    (task.pre ≡ some imagenet_pre) × (task.post ≡ some (imagenet_post labels)) × Ready labels batch

module _ {F : Type 0} (e : InferenceEngine F) (labels : List Text) where
  abbrev after_session : Durations → InferenceTask → Option LumenArena → Ran LumenArena
  after_session times task o = elim o [
    | none ↦ undefined
    | some s ↦
        answered (new_result task.client_fd (label_of e labels task.bytes) (timed times task.trace))
          s
  ]

  abbrev on_output : Durations → InferenceTask → Option ℕ × LumenArena → Ran LumenArena
  on_output times task r = elim r.0 [
    | none ↦ undefined
    | some p ↦ after_session times task (grant_all arena_allocator e.session_blocks r.1)
  ]

  infer_answers :
      (times : Durations) (task : InferenceTask) (input_ptr : Option ℕ) (a : LumenArena)
      → IsValid a
      → output_count e < 2 ^ 59
      → AllSmall e.session_blocks
      → a.offset + lines (output_count e * 4) + total_lines e.session_blocks ≤ a.capacity
      → (n : ℕ) × (infer arena_allocator e times task labels input_ptr a
          ≡ answered
              (new_result task.client_fd (label_of e labels task.bytes) (timed times task.trace))
              (record a { offset = n }))
  unfolding infer free
  infer_answers times task input_ptr a v small blocks fits =
      let (p, n, granted, at, vb) =
        alloc_granted a (output_count e * 4) v (omega arith) (omega arith) in
      let (m, session) =
        grant_all-granted e.session_blocks (record a { offset = n }) vb blocks (omega arith) in
      let bytes : mul_size (output_count e) 4 ≡ output_count e * 4 = omega arith in
      (
        m,
        ap (λ size. on_output times task (alloc a size)) bytes
            ∙ ap (on_output times task) granted
            ∙ ap (after_session times task) session,
      )

  with_processors_answers :
      (times : Durations) (task : InferenceTask) (input_ptr : Option ℕ) (a : LumenArena)
      (pre : Option PreProcessor) (post : Option PostProcessor)
      → pre ≡ some imagenet_pre
      → post ≡ some (imagenet_post labels)
      → with_processors arena_allocator e times pre post task input_ptr a
        ≡ infer arena_allocator e times task labels input_ptr a
  unfolding with_processors
  with_processors_answers times task input_ptr a pre post e₁ e₂ =
      ap₂ (λ pre post. with_processors arena_allocator e times pre post task input_ptr a) e₁ e₂

  abbrev mismatch : InferenceTask → InferenceResult
  mismatch task = new_result task.client_fd size_mismatch task.trace

  abbrev labelled : Durations → InferenceTask → InferenceResult
  labelled times task =
      new_result task.client_fd (label_of e labels task.bytes) (timed times task.trace)

  abbrev on_input : Durations → InferenceTask → Option ℕ × LumenArena → Ran LumenArena
  on_input times task r = elim r.0 [
    | none ↦ undefined
    | some p ↦
        if stays_in e && has_tensors e
        then with_processors arena_allocator e times task.pre task.post task r.0 r.1
        else undefined
  ]

  -- One task on an arena with room: it is answered, and only the arena's offset has moved.
  run_answers :
      (times : Durations) (task : InferenceTask) (a : LumenArena)
      → Roomy e a
      → task.pre ≡ some imagenet_pre
      → task.post ≡ some (imagenet_post labels)
      → (n : ℕ) × (run arena_allocator e times task a
          ≡ answered
              (if ltb (length task.bytes) (input_count e)
                then mismatch task
                else labelled times task)
              (record a { offset = n }))
  unfolding run
  run_answers times task a room pre post =
      let call = alloc a (mul_size (input_count e) 4) in
      elim (Bool-cases (ltb (length task.bytes) (input_count e))) [
        | inl short ↦ (
          a.offset,
          ap (λ b. if b then answered (mismatch task) a else on_input times task call) short
              ∙ sym (ap (λ b. answered (if b then mismatch task else labelled times task) a) short),
        )
        | inr enough ↦
            let bytes : mul_size (input_count e) 4 ≡ input_count e * 4 =
              omega (arith, room.input_small) in
            let (p, n, granted, at, vb) =
              alloc_granted a (input_count e * 4) room.valid (omega (arith, room.input_small))
                (omega (arith, room.fits)) in
            let (m, inferred) =
              infer_answers times task (some p) (record a { offset = n }) vb room.output_small
                room.session_small (omega (arith, room.fits, at)) in
            (
              m,
              ap (λ b. if b then answered (mismatch task) a else on_input times task call) enough
                  ∙ ap (λ size. on_input times task (alloc a size)) bytes
                  ∙ ap (on_input times task) granted
                  ∙ ap
                      (λ b.
                        if b
                        then with_processors arena_allocator e times task.pre task.post task
                            (some p) (record a { offset = n })
                        else undefined)
                      room.shaped
                  ∙ with_processors_answers times task (some p) (record a { offset = n }) task.pre
                      task.post pre post
                  ∙ inferred
                  ∙ sym (
                      ap
                        (λ b.
                          answered (if b then mismatch task else labelled times task)
                            (record a { offset = m }))
                        enough),
            )
      ]

  abbrev next :
      List (ℕ × Durations × InferenceTask)
      → NaiveResultQueue InferenceResult
      → Ran LumenArena
      → Option (LumenArena × NaiveResultQueue InferenceResult)
  next batch q ran = elim ran [
    | undefined ↦ none
    | answered res arena ↦ serve_batch e batch (reset arena) (push res q)
  ]

  -- A worker whose arena has been through its first request and has room for the two tensors and
  -- the session's blocks answers every task of a batch, in order and each once, whatever its
  -- payload, if the shapes keep `transform` in its buffers and ONNX Runtime takes them: with the model's label, or with the message if the payload is shorter than the
  -- tensor; every answer keeps the client's descriptor; and the arena is afterwards as it was
  -- before. The tasks carry the image processors.
  pub serve_batch_lem :
      (batch : List (ℕ × Durations × InferenceTask)) (a : LumenArena)
      (q : NaiveResultQueue InferenceResult)
      → IsSteady a
      → Roomy e a
      → Ready labels batch
      → serve_batch e batch a q
        ≡ some (a, record q { items = q.items ++ map (answer_of e labels) batch })
  unfolding serve_batch_with push
  serve_batch_lem [] a q steady room ready =
      ap (λ l. some (a, record q { items = l })) (sym (append-nil q.items))
  serve_batch_lem ((now, times, task) ∷ batch) a q steady room ready =
      let (n, answers) = run_answers times (waited now task) a room ready.0 ready.1 in
      let res = answer_of e labels (now, times, task) in
      ap (next batch q) answers
      ∙ ap (λ arena. serve_batch e batch arena (push res q)) (reset_offset a n steady)
      ∙ serve_batch_lem batch a (push res q) steady room ready.2
      ∙ ap (λ l. some (a, record q { items = l }))
          (append_assoc q.items (res ∷ []) (map (answer_of e labels) batch))
