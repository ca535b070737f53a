-- ===== src/Engine/Run.antt =====
-- `InferenceEngine::run` of src/InferenceEngine.cpp.
use lumen_engine.Prelude.{
  ℕ, zero, suc, ◌+◌, ◌-◌, ◌*◌, ◌^◌, Bool, true, false, not, ◌&&◌, Option, none, some, List, [], ◌∷◌,
  if◌then◌else◌, ltb, length, get_or, replicate, mul_size, ℤ, pos, negsuc,
}
use lumen_engine.Core.Types.{
  Text, InferenceTask, InferenceTrace, InferenceResult, new_result, PreProcessor, imagenet_pre,
  PostProcessor, imagenet_post,
}
use lumen_engine.Models.ImageNet.{transform, handle_results}
use lumen_engine.Memory.Interface.{ILumenAllocator}

-- `for (d : shape) if (d > 0) count *= d`
unfoldable pub count_of : (count : ℕ) → List ℤ → ℕ
count_of count [] = count
count_of count (pos zero ∷ dims) = count_of count dims
count_of count (pos (suc n) ∷ dims) = count_of (mul_size count (suc n)) dims
count_of count (negsuc n ∷ dims) = count_of count dims

-- A dimension as a `size_t`, where a negative one wraps. The shapes are ONNX Runtime's, in the order
-- batch, colour, height, width.
abbrev pub dimension : List ℤ → ℕ → ℕ
dimension dims i = elim (get_or dims i (pos 0)) [ pos n ↦ n | negsuc n ↦ 2 ^ 64 - 1 - n ]

abbrev pub all_positive : List ℤ → Bool
all_positive [] = true
all_positive (pos (suc n) ∷ dims) = all_positive dims
all_positive (_ ∷ dims) = false

-- "Error: Payload size mismatch"
abbrev pub size_mismatch : Text
size_mismatch =
    69 ∷ 114 ∷ 114 ∷ 111 ∷ 114 ∷ 58 ∷ 32 ∷ 80 ∷ 97 ∷ 121 ∷ 108 ∷ 111 ∷ 97 ∷ 100 ∷ 32 ∷ 115 ∷ 105
    ∷ 122 ∷ 101 ∷ 32 ∷ 109 ∷ 105 ∷ 115 ∷ 109 ∷ 97 ∷ 116 ∷ 99 ∷ 104 ∷ []

-- ONNX Runtime's session, with the shapes that the constructor read from it, and the arithmetic of
-- `float`.
pub record InferenceEngine (F : Type 0) : Type 0 where
  pub input_node_dims : List ℤ
  pub output_node_dims : List ℤ
  pub session : List F → ℕ → F  -- the score that a run leaves at a place of the output tensor
  pub creates_tensor : List ℤ → ℕ → Bool  -- `CreateTensor` takes a shape for a buffer's length
  pub session_blocks : List ℕ  -- what the session asks of the allocator that it was given, in a run
  pub normalise : (c pixel : ℕ) → F
  pub less : F → F → Bool
  pub zero_float : F

-- What the three timers measure.
pub record Durations : Type 0 where
  pub preprocess : ℕ
  pub inference : ℕ
  pub postprocess : ℕ

abbrev pub timed : Durations → Option InferenceTrace → Option InferenceTrace
timed times none = none
timed times (some trace) = some (record trace {
  preprocess_ms = times.preprocess;
  inference_ms = times.inference;
  postprocess_ms = times.postprocess;
})

-- `undefined`: a null pointer is used, the session is refused memory, memory behind the end of a
-- buffer or a shape is used, `CreateTensor` throws, or scores are read that the session has not
-- written.
pub data Ran (S : Type 0) : Type 0 where
  answered : InferenceResult → S → Ran S
  undefined : Ran S

abbrev pub input_count : {F : Type 0} → InferenceEngine F → ℕ
input_count e = count_of 1 e.input_node_dims

abbrev pub output_count : {F : Type 0} → InferenceEngine F → ℕ
output_count e = count_of 1 e.output_node_dims

abbrev pub picture_width : {F : Type 0} → InferenceEngine F → ℕ
picture_width e = dimension e.input_node_dims 3

abbrev pub picture_height : {F : Type 0} → InferenceEngine F → ℕ
picture_height e = dimension e.input_node_dims 2

-- Whether `transform` stays in the payload and in the tensor.
abbrev pub stays_in : {F : Type 0} → InferenceEngine F → Bool
stays_in e =
    ltb 3 (length e.input_node_dims)
    && not (ltb (input_count e) (3 * (picture_height e * picture_width e)))

-- Whether both tensors are made, and the session writes every score that is read.
abbrev pub has_tensors : {F : Type 0} → InferenceEngine F → Bool
has_tensors e =
    e.creates_tensor e.input_node_dims (input_count e)
    && e.creates_tensor e.output_node_dims (output_count e)
    && all_positive e.output_node_dims

-- The first `n` floats of a buffer, as a function of their place.
unfoldable pub floats_from : {F : Type 0} → (n i : ℕ) → (ℕ → F) → List F
floats_from zero i f = []
floats_from (suc n) i f = f i ∷ floats_from n (i + 1) f

-- The post-processor reads the `output_count` floats of the output tensor.
abbrev pub label_of : {F : Type 0} → InferenceEngine F → List Text → List ℕ → Text
label_of e labels bytes =
    let input =
      transform e.normalise bytes (picture_width e) (picture_height e)
        (replicate (input_count e) e.zero_float) in
    handle_results e.less labels (floats_from (output_count e) 0 (e.session input))

-- The session's own blocks, in a row; `none`: one was refused.
unfoldable pub grant_all : (a : ILumenAllocator) → List ℕ → a.S → Option a.S
grant_all a [] s = some s
grant_all a (size ∷ sizes) s =
    let r = a.alloc s size in elim r.0 [ none ↦ none | some p ↦ grant_all a sizes r.1 ]

module _ {F : Type 0} (a : ILumenAllocator) (e : InferenceEngine F) (times : Durations) where
  -- The part from the output tensor on; the guards free the blocks in the reverse order.
  unfoldable pub infer : InferenceTask → List Text → Option ℕ → a.S → Ran a.S
  infer task labels input_ptr s =
      let r = a.alloc s (mul_size (output_count e) 4) in
      elim r.0 [
        | none ↦ undefined
        | some p ↦ elim (grant_all a e.session_blocks r.1) [
          | none ↦ undefined
          | some s' ↦
              answered
                (new_result task.client_fd (label_of e labels task.bytes) (timed times task.trace))
                (a.free (a.free s' r.0) input_ptr)
        ]
      ]

  unfoldable pub with_processors :
      Option PreProcessor → Option PostProcessor → InferenceTask → Option ℕ → a.S → Ran a.S
  unfolding infer
  with_processors none post task input_ptr s = undefined
  with_processors (some imagenet_pre) none task input_ptr s = undefined
  with_processors (some imagenet_pre) (some (imagenet_post labels)) task input_ptr s =
      infer task labels input_ptr s

  unfoldable pub run : InferenceTask → a.S → Ran a.S
  unfolding with_processors
  run task s =
      if ltb (length task.bytes) (input_count e)
      then answered (new_result task.client_fd size_mismatch task.trace) s
      else (let r = a.alloc s (mul_size (input_count e) 4) in
          elim r.0 [
            | none ↦ undefined
            | some p ↦
                if stays_in e && has_tensors e
                then with_processors task.pre task.post task r.0 r.1
                else undefined
          ])
