-- ===== src/Engine/Metadata/Tests.antt =====
-- src/InferenceEngine.cpp: a model with one input and one output.
use lumen_engine.Prelude.{
  ◌+◌, ◌≡◌, refl, false, none, some, List, [], ◌∷◌, arith, length, pos, negsuc, true, Option,
}
use lumen_engine.Memory.Arena.{LumenArena}
use lumen_engine.Memory.Arena.Alloc.{IsValid}
use lumen_engine.Memory.Arena.Typed.{HasRoom, end_of}
use lumen_engine.Memory.Bytes.{Memory, write}
use lumen_engine.Engine.Metadata.{
  Node, Tables, Metadata, on_heap, in_arena, made, made_in, SessionInfo, new_engine, read_inputs,
  read_outputs, migrate_metadata_to_arena, load_nodes, run_shapes,
}
use lumen_engine.Engine.Metadata.Stored.{IsReadable}
use lumen_engine.Engine.Metadata.RoundTrip.{migration_blocks, load_nodes-migrate_metadata_to_arena}
use lumen_engine.Engine.Metadata.Construct.{HasBatch, run_shapes-new_engine}

abbrev inputs : List Node
inputs = record { name = 120 ∷ 48 ∷ []; dims = pos 1 ∷ pos 3 ∷ pos 4 ∷ pos 4 ∷ [] } ∷ []

abbrev outputs : List Node
outputs = record { name = 121 ∷ []; dims = pos 1 ∷ pos 10 ∷ [] } ∷ []

abbrev empty_arena : LumenArena
empty_arena = record {
  arena_ptr = 4096;
  capacity = 1024;
  offset = 0;
  warmup_offset = 0;
  warmed_up = false;
}

abbrev blank : Memory
blank q = 0

empty_arena-IsValid : IsValid empty_arena
empty_arena-IsValid = record {
  aligned = refl;
  addressed = omega arith;
  offset_in = omega arith;
  warmup_in = omega arith;
  offset_aligned = refl;
  warmup_aligned = refl;
}

empty_arena-HasRoom : HasRoom empty_arena (migration_blocks inputs outputs)
empty_arena-HasRoom = record {
  valid = empty_arena-IsValid;
  small = omega arith;
  room = omega arith;
}

input-IsReadable :
    IsReadable 8 (record { name = 120 ∷ 48 ∷ []; dims = pos 1 ∷ pos 3 ∷ pos 4 ∷ pos 4 ∷ [] })
input-IsReadable = record {
  characters = (ground arith, (ground arith, tt));
  short = omega arith;
  int64 = (omega arith, (omega arith, (omega arith, (omega arith, tt))));
}

output-IsReadable : IsReadable 8 (record { name = 121 ∷ []; dims = pos 1 ∷ pos 10 ∷ [] })
output-IsReadable = record {
  characters = (ground arith, tt);
  short = omega arith;
  int64 = (omega arith, (omega arith, tt));
}

load_nodes-migrate_metadata_to_arena_example :
    (tin : Tables) × (tout : Tables) × (b : LumenArena) × (new : Memory)
    × (migrate_metadata_to_arena inputs outputs empty_arena blank
        ≡ some (in_arena 1 tin 1 tout, b, new))
    × IsValid b
    × (load_nodes 8 (write new (end_of b + 3) (1 ∷ 2 ∷ [])) tin 0 1 ≡ inputs)
    × (load_nodes 8 (write new (end_of b + 3) (1 ∷ 2 ∷ [])) tout 0 1 ≡ outputs)
load_nodes-migrate_metadata_to_arena_example =
    load_nodes-migrate_metadata_to_arena inputs outputs empty_arena blank 8 3 (1 ∷ 2 ∷ [])
      empty_arena-HasRoom (input-IsReadable, tt) (output-IsReadable, tt)

abbrev info : SessionInfo
info = record {
  get_input_count = 1;
  get_input_name = λ i. 120 ∷ 48 ∷ [];
  get_input_shape = λ i. negsuc 0 ∷ pos 3 ∷ pos 4 ∷ pos 4 ∷ [];
  get_output_count = 1;
  get_output_name = λ i. 121 ∷ [];
  get_output_shape = λ i. negsuc 0 ∷ pos 10 ∷ [];
}

abbrev session : Option LumenArena → Option (SessionInfo × Option LumenArena × Memory)
session o = some (info, o, blank)

run_shapes-new_engine_example :
    (new_engine true session none ≡ made (on_heap inputs outputs))
    × (length inputs ≡ 1)
    × HasBatch inputs
    × ((meta : Metadata) × (b : LumenArena) × (new : Memory) × (new_engine true session
            (some empty_arena)
          ≡ made_in meta b new)
        × (run_shapes meta (write new (end_of b + 3) (1 ∷ 2 ∷ []))
            ≡ run_shapes (on_heap inputs outputs) blank))
unfolding read_inputs read_outputs
run_shapes-new_engine_example =
    run_shapes-new_engine info inputs session empty_arena empty_arena blank 8 3 (1 ∷ 2 ∷ [])
      ((negsuc 0, pos 3 ∷ pos 4 ∷ pos 4 ∷ [], refl), tt) refl refl refl empty_arena-HasRoom
      (input-IsReadable, tt) (output-IsReadable, tt)
