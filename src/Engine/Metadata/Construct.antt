-- ===== src/Engine/Metadata/Construct.antt =====
-- The constructor of src/InferenceEngine.cpp.
use lumen_engine.Prelude.{
  some-injective, ◌+◌, ℕ, zero, suc, ◌≡◌, refl, ap, ◌∙◌, sym, subst, true, Option, none, some, List,
  [], ◌∷◌, arith, length, ℤ, pos, negsuc,
}
use lumen_engine.Memory.Arena.{LumenArena}
use lumen_engine.Memory.Arena.Typed.{HasRoom, end_of}
use lumen_engine.Memory.Bytes.{Memory, write}
use lumen_engine.Engine.Metadata.{
  Node, SessionInfo, Metadata, on_heap, made, made_in, migrated, new_engine, with_session,
  fixed_batch, read_inputs, read_outputs, run_shapes,
}
use lumen_engine.Engine.Metadata.Stored.{AllReadable}
use lumen_engine.Engine.Metadata.RoundTrip.{migration_blocks, run_shapes-migrated}

-- The shape of each input has a first dimension, and that is positive.
abbrev pub HasBatch : List Node → Type 0
HasBatch [] = Unit
HasBatch (node ∷ nodes) =
    ((d : ℕ) × (dims : List ℤ) × (node.dims ≡ pos (suc d) ∷ dims)) × HasBatch nodes

fixed_batch_lem : (d : ℤ) → (n : ℕ) × (fixed_batch d ≡ pos (suc n))
fixed_batch_lem (pos zero) = (0, refl)
fixed_batch_lem (pos (suc n)) = (n, ground arith)
fixed_batch_lem (negsuc n) = (0, refl)

-- Every shape of an input from `i` on, `left` of them, has a dimension.
abbrev pub AllShaped : SessionInfo → (left i : ℕ) → Type 0
AllShaped s zero i = Unit
AllShaped s (suc left) i =
    ((d : ℤ) × (dims : List ℤ) × (s.get_input_shape i ≡ d ∷ dims)) × AllShaped s left (suc i)

read_inputs_shaped :
    (s : SessionInfo) (left i : ℕ)
    → AllShaped s left i
    → (nodes : List Node) × (read_inputs s left i ≡ some nodes)
      × (length nodes ≡ left)
      × HasBatch nodes
unfolding read_inputs
read_inputs_shaped s zero i h = ([], refl, refl, tt)
read_inputs_shaped s (suc left) i h =
    let (d, dims, shape) = h.0 in
    let (rest, ran, count, batch) = read_inputs_shaped s left (suc i) h.1 in
    let (n, fixed) = fixed_batch_lem d in
    (
      record { name = s.get_input_name i; dims = fixed_batch d ∷ dims } ∷ rest,
      rw (shape, read_inputs) (rw ran refl),
      ap suc count,
      ((n, dims, ap (λ x. x ∷ dims) fixed), batch),
    )

-- If every input of the model has a dimension, the constructor comes through with an arena and
-- without one, when ONNX Runtime takes the arena and makes the same session for both, and the
-- arena that the session has left has room for the migration of names and shapes that can be read
-- back: each input's first dimension is then positive, and `run` finds the same shapes of the first
-- input and output in the arena as on the heap, also after bytes are written anywhere behind the new
-- offset.
pub run_shapes-new_engine :
    (info : SessionInfo) (inputs : List Node)
    (session : Option LumenArena → Option (SessionInfo × Option LumenArena × Memory))
    (a a' : LumenArena) (m : Memory) (limit d : ℕ) (bs : List ℕ)
    → AllShaped info info.get_input_count 0
    → read_inputs info info.get_input_count 0 ≡ some inputs
    → session none ≡ some (info, none, m)
    → session (some a) ≡ some (info, some a', m)
    → let outputs = read_outputs info info.get_output_count 0 in
      HasRoom a' (migration_blocks inputs outputs)
      → AllReadable limit inputs
      → AllReadable limit outputs
      → (new_engine true session none ≡ made (on_heap inputs outputs))
        × (length inputs ≡ info.get_input_count)
        × HasBatch inputs
        × ((meta : Metadata) × (b : LumenArena) × (new : Memory) × (new_engine true session (some a)
              ≡ made_in meta b new)
            × (run_shapes meta (write new (end_of b + d) bs)
                ≡ run_shapes (on_heap inputs outputs) m))
unfolding new_engine with_session migrated
run_shapes-new_engine info inputs session a a' m limit d bs shaped e plain opened room rin rout =
    let outputs = read_outputs info info.get_output_count 0 in
    let (nodes, ran, count, batch) = read_inputs_shaped info info.get_input_count 0 shaped in
    let same : nodes ≡ inputs = some-injective (sym ran ∙ e) in
    let (meta, b, new, made_so, back) =
      run_shapes-migrated inputs outputs a' m limit d bs room rin rout in
    (
      rw (plain, new_engine) (rw (e, with_session) refl),
      subst (λ l. length l ≡ info.get_input_count) same count,
      subst HasBatch same batch,
      (meta, b, new, rw (opened, new_engine) (rw (e, with_session) made_so), back),
    )
