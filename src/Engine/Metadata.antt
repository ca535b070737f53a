-- ===== src/Engine/Metadata.antt =====
-- The constructor of src/InferenceEngine.cpp and `migrate_metadata_to_arena`: the names and the
-- shapes of a model's inputs and outputs, on the heap or in the arena.
pub mod Stored
pub mod OneNode
pub mod Copied
pub mod Layout
pub mod RoundTrip
pub mod Construct
mod Tests
use lumen_engine.Prelude.{
  ℕ, zero, suc, ◌+◌, ◌*◌, Bool, true, false, Option, none, some, List, [], ◌∷◌, ◌++◌, if◌then◌else◌,
  length, ℤ, pos, not_positive,
}
use lumen_engine.Core.Types.{Text}
use lumen_engine.Memory.Arena.{LumenArena, alloc_typed}
use lumen_engine.Memory.Bytes.{
  Memory, write, word_bytes, ints_bytes, read_word, read_ints, read_string,
}

-- An input or output: its name and its shape.
pub record Node : Type 0 where
  pub name : Text
  pub dims : List ℤ

-- What the constructor asks of ONNX Runtime's session.
pub record SessionInfo : Type 0 where
  pub get_input_count : ℕ
  pub get_input_name : ℕ → Text
  pub get_input_shape : ℕ → List ℤ
  pub get_output_count : ℕ
  pub get_output_name : ℕ → Text
  pub get_output_shape : ℕ → List ℤ

-- `if (dims[0] <= 0) dims[0] = 1`
abbrev pub fixed_batch : ℤ → ℤ
fixed_batch d = if not_positive d then pos 1 else d

-- An input must have a first dimension: `none` is a read behind the end of an empty shape.
abbrev pub input_dims : List ℤ → Option (List ℤ)
input_dims [] = none
input_dims (d ∷ dims) = some (fixed_batch d ∷ dims)

abbrev pub output_dims : List ℤ → List ℤ
output_dims [] = []
output_dims (d ∷ dims) = fixed_batch d ∷ dims

-- The two loops, with the number of nodes that are left.
pub read_inputs : SessionInfo → (left i : ℕ) → Option (List Node)
read_inputs s zero i = some []
read_inputs s (suc left) i =
    let rest = read_inputs s left (suc i) in
    elim (input_dims (s.get_input_shape i)) [
      | none ↦ none
      | some dims ↦ elim rest [
        | none ↦ none
        | some nodes ↦ some (record { name = s.get_input_name i; dims = dims } ∷ nodes)
      ]
    ]

pub read_outputs : SessionInfo → (left i : ℕ) → List Node
read_outputs s zero i = []
read_outputs s (suc left) i =
    record { name = s.get_output_name i; dims = output_dims (s.get_output_shape i) }
    ∷ read_outputs s left (suc i)

-- The arrays in the arena for the inputs, or for the outputs.
pub record Tables : Type 0 where
  pub names : ℕ
  pub dims : ℕ
  pub counts : ℕ

-- The fields of the engine: the vectors, or the arena's arrays and their lengths once
-- `metadata_migrated` is set and the vectors are cleared.
pub data Metadata : Type 0 where
  on_heap : (inputs outputs : List Node) → Metadata
  in_arena : (num_inputs : ℕ) → Tables → (num_outputs : ℕ) → Tables → Metadata

-- `none`: the arena has refused a block, and the copy writes through the null pointer.
abbrev pub granted : {X : Type 0} → Option ℕ × LumenArena → (ℕ → LumenArena → Option X) → Option X
granted r next = elim r.0 [ none ↦ none | some p ↦ next p r.1 ]

-- The body of each of the two loops of the migration.
unfoldable pub copy_node :
    Tables → (i : ℕ) → Node → LumenArena → Memory → Option (LumenArena × Memory)
copy_node t i node a m = granted (alloc_typed a 1 1 (length node.name + 1)) (λ name_arena a₁.
    granted (alloc_typed a₁ 8 8 (length node.dims)) (λ dims_arena a₂. some (
      a₂,
      write
          (write
            (write
              (write (write m name_arena (node.name ++ (0 ∷ []))) (t.names + i * 8)
                (word_bytes name_arena))
              dims_arena (ints_bytes node.dims))
            (t.dims + i * 8) (word_bytes dims_arena))
          (t.counts + i * 8) (word_bytes (length node.dims)),
    )))

unfoldable pub copy_nodes :
    Tables → (i : ℕ) → List Node → LumenArena → Memory → Option (LumenArena × Memory)
copy_nodes t i [] a m = some (a, m)
copy_nodes t i (node ∷ nodes) a m = elim (copy_node t i node a m) [
  | none ↦ none
  | some (a', m') ↦ copy_nodes t (suc i) nodes a' m'
]

-- The six arrays, in the order of the code.
unfoldable pub alloc_tables :
    (num_inputs num_outputs : ℕ) → LumenArena → Option (Tables × Tables × LumenArena)
alloc_tables num_inputs num_outputs a = granted (alloc_typed a 8 8 num_inputs) (λ in_names a₁.
    granted (alloc_typed a₁ 8 8 num_outputs) (λ out_names a₂.
      granted (alloc_typed a₂ 8 8 num_inputs) (λ in_dims a₃.
        granted (alloc_typed a₃ 8 8 num_outputs) (λ out_dims a₄.
          granted (alloc_typed a₄ 8 8 num_inputs) (λ in_counts a₅.
            granted (alloc_typed a₅ 8 8 num_outputs) (λ out_counts a₆. some (
              record { names = in_names; dims = in_dims; counts = in_counts },
              record { names = out_names; dims = out_dims; counts = out_counts },
              a₆,
            )))))))

-- The new fields, the arena and the memory.
unfoldable pub migrate_metadata_to_arena :
    (inputs outputs : List Node) → LumenArena → Memory → Option (Metadata × LumenArena × Memory)
migrate_metadata_to_arena inputs outputs a m =
    elim (alloc_tables (length inputs) (length outputs) a) [
      | none ↦ none
      | some (tin, tout, a₁) ↦ elim (copy_nodes tin 0 inputs a₁ m) [
        | none ↦ none
        | some (a₂, m₂) ↦ elim (copy_nodes tout 0 outputs a₂ m₂) [
          | none ↦ none
          | some (a₃, m₃) ↦ some (in_arena (length inputs) tin (length outputs) tout, a₃, m₃)
        ]
      ]
    ]

pub data EngineError : Type 0 where
  register_failed : EngineError
  session_failed : EngineError

-- An engine with an arena or without one; `undefined` is a wrong access to memory.
pub data NewEngine : Type 0 where
  failed : EngineError → NewEngine
  undefined : NewEngine
  made : Metadata → NewEngine
  made_in : Metadata → LumenArena → Memory → NewEngine

-- The end of the constructor; `FromOrt` gives the arena that the interface table stands in.
unfoldable pub migrated : (inputs outputs : List Node) → Option LumenArena → Memory → NewEngine
migrated inputs outputs none m = made (on_heap inputs outputs)
migrated inputs outputs (some a) m = elim (migrate_metadata_to_arena inputs outputs a m) [
  | none ↦ undefined
  | some (meta, a', m') ↦ made_in meta a' m'
]

-- The two loops, once there is a session.
unfoldable pub with_session : Option (SessionInfo × Option LumenArena × Memory) → NewEngine
with_session none = failed session_failed
with_session (some (info, allocator, m)) = elim (read_inputs info info.get_input_count 0) [
  | none ↦ undefined
  | some inputs ↦ migrated inputs (read_outputs info info.get_output_count 0) allocator m
]

-- The constructor: `registers` says whether ONNX Runtime takes the allocator, and `session` is the
-- one that it makes of the model's file and the arena, if it makes one.
unfoldable pub new_engine :
    (registers : Bool)
    → (session : Option LumenArena → Option (SessionInfo × Option LumenArena × Memory))
    → Option LumenArena
    → NewEngine
new_engine registers session none = with_session (session none)
new_engine registers session (some a) =
    if registers then with_session (session (some a)) else failed register_failed

-- The arrays as ONNX Runtime and `run` read them; a name is looked at for at most `limit` bytes.
abbrev pub load_dims : Memory → Tables → (i : ℕ) → List ℤ
load_dims m t i = read_ints m (read_word m (t.dims + i * 8)) (read_word m (t.counts + i * 8))

abbrev pub load_node : (limit : ℕ) → Memory → Tables → (i : ℕ) → Node
load_node limit m t i = record {
  name = read_string m (read_word m (t.names + i * 8)) limit;
  dims = load_dims m t i;
}

unfoldable pub load_nodes : (limit : ℕ) → Memory → Tables → (i left : ℕ) → List Node
load_nodes limit m t i zero = []
load_nodes limit m t i (suc left) = load_node limit m t i ∷ load_nodes limit m t (suc i) left

-- The shapes of input 0 and of output 0, as `run` finds them.
abbrev pub first_dims : List Node → Option (List ℤ)
first_dims [] = none
first_dims (node ∷ nodes) = some node.dims

abbrev pub arena_dims : Memory → ℕ → Tables → Option (List ℤ)
arena_dims m zero t = none
arena_dims m (suc n) t = some (load_dims m t 0)

unfoldable pub run_shapes : Metadata → Memory → Option (List ℤ) × Option (List ℤ)
run_shapes (on_heap inputs outputs) m = (first_dims inputs, first_dims outputs)
run_shapes (in_arena n tin k tout) m = (arena_dims m n tin, arena_dims m k tout)
