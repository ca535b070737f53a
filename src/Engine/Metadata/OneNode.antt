-- ===== src/Engine/Metadata/OneNode.antt =====
-- src/InferenceEngine.cpp: one node, copied to the arena by `migrate_metadata_to_arena`.
use lumen_engine.Prelude.{
  ℕ, suc, ◌+◌, ◌*◌, ◌≤◌, ◌<◌, ◌≡◌, refl, ◌∙◌, ◌⊎◌, inl, inr, some, [], ◌∷◌, ◌++◌, arith, length,
  length-append,
}
use lumen_engine.Memory.Arena.{LumenArena}
use lumen_engine.Memory.Arena.Typed.{lines, advanced, end_of, HasRoom, alloc_typed_fits}
use lumen_engine.Memory.Bytes.{
  Memory, BytesAt-write, BytesAt-kept, write, write_apart, word_bytes, ints_bytes,
  length-ints_bytes, length-bytes_of,
}
use lumen_engine.Engine.Metadata.{Node, Tables, copy_node}
use lumen_engine.Engine.Metadata.Stored.{Stored}

abbrev pub name_block : Node → ℕ
name_block node = lines ((length node.name + 1) * 1)

abbrev pub dims_block : Node → ℕ
dims_block node = lines (length node.dims * 8)

abbrev pub node_blocks : Node → ℕ
node_blocks node = name_block node + dims_block node

-- The three arrays of `n` entries lie one behind the other, and below an address.
pub record Ordered (t : Tables) (n lo : ℕ) : Type 0 where
  pub names_end : t.names + n * 8 ≤ t.dims
  pub dims_end : t.dims + n * 8 ≤ t.counts
  pub counts_end : t.counts + n * 8 ≤ lo

-- An address below the blocks and outside the entries from `i` to `n`.
pub record Apart (t : Tables) (i n lo q : ℕ) : Type 0 where
  pub below : q < lo
  pub off_names : (q < t.names + i * 8) ⊎ (t.names + n * 8 ≤ q)
  pub off_dims : (q < t.dims + i * 8) ⊎ (t.dims + n * 8 ≤ q)
  pub off_counts : (q < t.counts + i * 8) ⊎ (t.counts + n * 8 ≤ q)

-- The memory after the writes of one node's copy, which are given the addresses of its blocks.
abbrev pub copied : Tables → (i : ℕ) → Node → (name_arena dims_arena : ℕ) → Memory → Memory
copied t i node p d m =
    write
      (write
        (write (write (write m p (node.name ++ (0 ∷ []))) (t.names + i * 8) (word_bytes p)) d
          (ints_bytes node.dims))
        (t.dims + i * 8) (word_bytes d))
      (t.counts + i * 8) (word_bytes (length node.dims))

pub copy_node-granted :
    (t : Tables) (i : ℕ) (node : Node) (a : LumenArena) (m : Memory) (rest : ℕ)
    → HasRoom a (name_block node + (dims_block node + rest))
    → (copy_node t i node a m
        ≡ some (
          advanced (advanced a (name_block node)) (dims_block node),
          copied t i node (end_of a) (end_of (advanced a (name_block node))) m,
        ))
      × HasRoom (advanced (advanced a (name_block node)) (dims_block node)) rest
unfolding copy_node
copy_node-granted t i node a m rest h =
    let (e₁, h₁) =
      alloc_typed_fits a 1 1 (length node.name + 1) (dims_block node + rest) h (omega arith) in
    let (e₂, h₂) =
      alloc_typed_fits (advanced a (name_block node)) 8 8 (length node.dims) rest h₁
        (omega arith) in
    (rw e₁ (rw e₂ refl), h₂)

module _ (t : Tables) (i : ℕ) (node : Node) (p d : ℕ) (m : Memory) where
  pub copied-Apart :
      {lo q : ℕ} → lo ≤ p → lo ≤ d → Apart t i (suc i) lo q → copied t i node p d m q ≡ m q
  copied-Apart {lo} {q} a b off =
      let first : (q < p) ⊎ (p + length (node.name ++ (0 ∷ [])) ≤ q) =
        inl (omega (arith, off.below)) in
      let second : (q < d) ⊎ (d + length (ints_bytes node.dims) ≤ q) =
        inl (omega (arith, off.below)) in
      let names : (q < t.names + i * 8) ⊎ (t.names + i * 8 + length (word_bytes p) ≤ q) =
        ground (arith, off.off_names, length-bytes_of 8 p) in
      let dims : (q < t.dims + i * 8) ⊎ (t.dims + i * 8 + length (word_bytes d) ≤ q) =
        ground (arith, off.off_dims, length-bytes_of 8 d) in
      let counts : (q < t.counts + i * 8)
          ⊎ (t.counts + i * 8 + length (word_bytes (length node.dims)) ≤ q) =
        ground (arith, off.off_counts, length-bytes_of 8 (length node.dims)) in
      write_apart _ _ _ q counts
      ∙ write_apart _ _ _ q dims
      ∙ write_apart _ _ _ q second
      ∙ write_apart _ _ _ q names
      ∙ write_apart m p _ q first

  pub copied-Stored :
      {lo hi n : ℕ}
      → i < n
      → Ordered t n lo
      → lo ≤ p
      → p + length node.name + 1 ≤ d
      → d + length node.dims * 8 ≤ hi
      → Stored t i lo hi node (copied t i node p d m)
  copied-Stored {lo} {hi} {n} inside o above between end =
      let name_length = length-append node.name (0 ∷ []) in
      let dims_length = length-ints_bytes node.dims in
      let w₁ = length-bytes_of 8 p in
      let w₂ = length-bytes_of 8 d in
      let w₃ = length-bytes_of 8 (length node.dims) in
      record {
        name_at = p;
        dims_at = d;
        name_entry = BytesAt-kept _ _ _ _ _ (inr (omega arith)) (
            BytesAt-kept _ _ _ _ _ (inr (omega arith))
              (BytesAt-kept _ _ _ _ _ (inr (omega arith)) (BytesAt-write _ _ _)));
        dims_entry = BytesAt-kept _ _ _ _ _ (inr (omega arith)) (BytesAt-write _ _ _);
        count_entry = BytesAt-write _ _ _;
        name_bytes = BytesAt-kept _ _ _ _ _ (inl (omega arith)) (
            BytesAt-kept _ _ _ _ _ (inl (omega arith)) (
              BytesAt-kept _ _ _ _ _ (inr (omega arith))
                (BytesAt-kept _ _ _ _ _ (inl (omega arith)) (BytesAt-write _ _ _))));
        dims_bytes =
            BytesAt-kept _ _ _ _ _ (inl (omega arith))
              (BytesAt-kept _ _ _ _ _ (inl (omega arith)) (BytesAt-write _ _ _));
        name_in = (omega arith, omega arith);
        dims_in = (omega arith, omega arith);
      }
