-- ===== src/Engine/Metadata/RoundTrip.antt =====
-- src/InferenceEngine.cpp: `migrate_metadata_to_arena` as a whole, and what is read back from the
-- arena.
use lumen_engine.Prelude.{
  ℕ, ◌+◌, ◌^◌, ◌<◌, ◌≡◌, refl, ap, ap₂, ◌∙◌, inl, some, List, [], ◌∷◌, arith, length,
}
use lumen_engine.Memory.Arena.{LumenArena}
use lumen_engine.Memory.Arena.Alloc.{IsValid}
use lumen_engine.Memory.Arena.Typed.{end_of, HasRoom, HasRoom-less}
use lumen_engine.Memory.Bytes.{Memory, write, write_apart}
use lumen_engine.Engine.Metadata.{
  Node, Tables, Metadata, in_arena, on_heap, alloc_tables, copy_nodes, migrate_metadata_to_arena,
  load_nodes, run_shapes, arena_dims, first_dims, migrated, made_in,
}
use lumen_engine.Engine.Metadata.Stored.{
  AllStored, AllStored-cong, AllStored-wider, AllReadable, load_nodes-AllStored, load_dims-Stored,
}
use lumen_engine.Engine.Metadata.Layout.{
  tables_blocks, alloc_tables_lem, inputs-Ordered, outputs-Ordered, Apart-inputs, below-inputs,
  below-outputs,
}
use lumen_engine.Engine.Metadata.Copied.{nodes_blocks, copy_nodes_lem}

-- Everything that the migration asks of the arena.
abbrev pub migration_blocks : (inputs outputs : List Node) → ℕ
migration_blocks inputs outputs =
    tables_blocks (length inputs) (length outputs) + (nodes_blocks inputs + nodes_blocks outputs)

-- A migration that has come through, and both lists of nodes in a memory that agrees with the new
-- one up to the new offset.
record Migrated (inputs outputs : List Node) (a : LumenArena) (m : Memory) : Type 0 where
  tin : Tables
  tout : Tables
  new_arena : LumenArena
  memory : Memory
  ran :
      migrate_metadata_to_arena inputs outputs a m
      ≡ some (in_arena (length inputs) tin (length outputs) tout, new_arena, memory)
  valid : IsValid new_arena
  top : end_of new_arena < 2 ^ 63
  stored_inputs :
      (later : Memory)
      → ((q : ℕ) → q < end_of new_arena → later q ≡ memory q)
      → AllStored tin 0 0 (end_of new_arena) inputs later
  stored_outputs :
      (later : Memory)
      → ((q : ℕ) → q < end_of new_arena → later q ≡ memory q)
      → AllStored tout 0 0 (end_of new_arena) outputs later

migrated_by :
    (inputs outputs : List Node) (a a₁ a₂ a₃ : LumenArena) (m m₂ m₃ : Memory) (tin tout : Tables)
    → alloc_tables (length inputs) (length outputs) a ≡ some (tin, tout, a₁)
    → copy_nodes tin 0 inputs a₁ m ≡ some (a₂, m₂)
    → copy_nodes tout 0 outputs a₂ m₂ ≡ some (a₃, m₃)
    → migrate_metadata_to_arena inputs outputs a m
      ≡ some (in_arena (length inputs) tin (length outputs) tout, a₃, m₃)
unfolding migrate_metadata_to_arena
migrated_by inputs outputs a a₁ a₂ a₃ m m₂ m₃ tin tout e₁ e₂ e₃ =
    rw (e₁, migrate_metadata_to_arena) (rw e₂ (rw e₃ refl))

migrate_lem :
    (inputs outputs : List Node) (a : LumenArena) (m : Memory)
    → HasRoom a (migration_blocks inputs outputs)
    → Migrated inputs outputs a m
migrate_lem inputs outputs a m h =
    let tables =
      alloc_tables_lem (length inputs) (length outputs) a
        (nodes_blocks inputs + nodes_blocks outputs) h in
    let o = tables.order in
    let a₁ = record a { offset = tables.new_offset } in
    let c₁ =
      copy_nodes_lem tables.tin 0 (length inputs) inputs a₁ m (nodes_blocks outputs) (end_of a₁)
        (omega arith) tables.room (inputs-Ordered o) (omega arith) in
    let a₂ = record a { offset = c₁.new_offset } in
    let c₂ =
      copy_nodes_lem tables.tout 0 (length outputs) outputs a₂ c₁.memory 0 (end_of a₁) (omega arith)
        (HasRoom-less (omega arith) c₁.room) (outputs-Ordered (omega arith) o)
        (omega (arith, c₁.grows)) in
    let a₃ = record a { offset = c₂.new_offset } in
    record {
      tin = tables.tin;
      tout = tables.tout;
      new_arena = a₃;
      memory = c₂.memory;
      ran =
          migrated_by inputs outputs a a₁ a₂ a₃ m c₁.memory c₂.memory tables.tin tables.tout
            tables.ran c₁.ran c₂.ran;
      valid = c₂.room.valid;
      top = omega (arith, c₂.room.valid.addressed, c₂.room.valid.offset_in);
      stored_inputs = λ later same.
          AllStored-wider tables.tin 0 inputs later (omega arith) (omega (arith, c₂.grows)) (
            AllStored-cong {n = length inputs} inputs c₁.memory later (omega arith)
              (λ q u.
                same q (omega (arith, c₂.grows, below-inputs o (omega (arith, c₁.grows)) u))
                ∙ c₂.kept q (Apart-inputs o (omega (arith, c₁.grows)) u))
              c₁.stored);
      stored_outputs = λ later same.
          AllStored-wider tables.tout 0 outputs later (omega arith) (omega arith) (
            AllStored-cong {n = length outputs} outputs c₂.memory later (omega arith)
              (λ q u. same q (below-outputs o (omega (arith, c₁.grows, c₂.grows)) u)) c₂.stored);
    }

written_behind : (m : Memory) (p d : ℕ) (bs : List ℕ) (q : ℕ) → q < p → write m (p + d) bs q ≡ m q
written_behind m p d bs q h = write_apart m (p + d) bs q (inl (omega arith))

-- In a valid arena with a capacity below 2^62 and room for the arrays and the blocks, the migration
-- comes through, whatever inputs and outputs there are whose names have no null character and are
-- shorter than `limit` and whose dimensions have 64 bits: read back from the arena they are the
-- inputs and the outputs again, also after bytes are written anywhere behind the new offset.
pub load_nodes-migrate_metadata_to_arena :
    (inputs outputs : List Node) (a : LumenArena) (m : Memory) (limit d : ℕ) (bs : List ℕ)
    → HasRoom a (migration_blocks inputs outputs)
    → AllReadable limit inputs
    → AllReadable limit outputs
    → (tin : Tables) × (tout : Tables) × (b : LumenArena) × (new : Memory)
      × (migrate_metadata_to_arena inputs outputs a m
          ≡ some (in_arena (length inputs) tin (length outputs) tout, b, new))
      × IsValid b
      × (load_nodes limit (write new (end_of b + d) bs) tin 0 (length inputs) ≡ inputs)
      × (load_nodes limit (write new (end_of b + d) bs) tout 0 (length outputs) ≡ outputs)
load_nodes-migrate_metadata_to_arena inputs outputs a m limit d bs h rin rout =
    let w = migrate_lem inputs outputs a m h in
    let hi = end_of w.new_arena in
    let later = write w.memory (hi + d) bs in
    let same = written_behind w.memory hi d bs in
    (
      w.tin,
      w.tout,
      w.new_arena,
      w.memory,
      w.ran,
      w.valid,
      load_nodes-AllStored w.tin 0 0 hi limit inputs later w.top rin (w.stored_inputs later same),
      load_nodes-AllStored w.tout 0 0 hi limit outputs later w.top rout
          (w.stored_outputs later same),
    )

dims_back :
    (limit : ℕ) (nodes : List Node) (t : Tables) (later : Memory) (hi : ℕ)
    → hi < 2 ^ 63
    → AllReadable limit nodes
    → AllStored t 0 0 hi nodes later
    → arena_dims later (length nodes) t ≡ first_dims nodes
unfolding AllStored
dims_back limit [] t later hi top ok s = refl
dims_back limit (node ∷ nodes) t later hi top ok s =
    ap some (load_dims-Stored later top ok.0.int64 s.0)

pub run_shapes-migrated :
    (inputs outputs : List Node) (a : LumenArena) (m : Memory) (limit d : ℕ) (bs : List ℕ)
    → HasRoom a (migration_blocks inputs outputs)
    → AllReadable limit inputs
    → AllReadable limit outputs
    → (meta : Metadata) × (b : LumenArena) × (new : Memory) × (migrated inputs outputs (some a) m
        ≡ made_in meta b new)
      × (run_shapes meta (write new (end_of b + d) bs) ≡ run_shapes (on_heap inputs outputs) m)
unfolding run_shapes migrated
run_shapes-migrated inputs outputs a m limit d bs h rin rout =
    let w = migrate_lem inputs outputs a m h in
    let hi = end_of w.new_arena in
    let later = write w.memory (hi + d) bs in
    let same = written_behind w.memory hi d bs in
    (
      in_arena (length inputs) w.tin (length outputs) w.tout,
      w.new_arena,
      w.memory,
      rw (w.ran, migrated) refl,
      ap₂ (λ x y. (x, y))
          (dims_back limit inputs w.tin later hi w.top rin (w.stored_inputs later same))
          (dims_back limit outputs w.tout later hi w.top rout (w.stored_outputs later same)),
    )
