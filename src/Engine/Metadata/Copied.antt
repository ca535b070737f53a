-- ===== src/Engine/Metadata/Copied.antt =====
-- src/InferenceEngine.cpp: what the two loops of `migrate_metadata_to_arena` leave in memory.
use lumen_engine.Prelude.{
  ℕ, suc, ◌+◌, ◌≤◌, ◌<◌, ◌≡◌, refl, ap, ◌∙◌, inl, inr, Option, none, some, List, [], ◌∷◌, arith,
  length,
}
use lumen_engine.Memory.Arena.{LumenArena}
use lumen_engine.Memory.Arena.Typed.{advanced, end_of, HasRoom, HasRoom-less}
use lumen_engine.Memory.Bytes.{Memory}
use lumen_engine.Engine.Metadata.{Node, Tables, copy_node, copy_nodes}
use lumen_engine.Engine.Metadata.Stored.{
  Stored, AllStored, InUse, in_blocks, in_names, in_dims, in_counts, Stored-cong, Stored-wider,
  AllStored-wider,
}
use lumen_engine.Engine.Metadata.OneNode.{
  name_block, dims_block, node_blocks, Ordered, Apart, copied, copy_node-granted, copied-Apart,
  copied-Stored,
}

abbrev pub nodes_blocks : List Node → ℕ
nodes_blocks [] = 0
nodes_blocks (node ∷ nodes) = node_blocks node + nodes_blocks nodes

-- What `copy_nodes` has done: the nodes stand in the entries from `i` to `n` and in blocks behind
-- the old offset, other memory is as before, and room is left.
pub record Copied (t : Tables) (i n : ℕ) (nodes : List Node) (a : LumenArena) (m : Memory)
    (rest : ℕ) : Type 0 where
  pub new_offset : ℕ
  pub memory : Memory
  pub ran : copy_nodes t i nodes a m ≡ some (record a { offset = new_offset }, memory)
  pub grows : a.offset ≤ new_offset
  pub room : HasRoom (record a { offset = new_offset }) rest
  pub stored : AllStored t i (end_of a) (a.arena_ptr + new_offset) nodes memory
  pub kept : (q : ℕ) → Apart t i n (end_of a) q → memory q ≡ m q

Apart-InUse :
    {t : Tables} {i n lo hi lo' : ℕ} {q : ℕ}
    → i < n
    → Ordered t n lo
    → lo ≤ lo'
    → lo' ≤ hi
    → InUse t i (suc i) lo' hi q
    → Apart t (suc i) n hi q
Apart-InUse inside o a b (in_blocks l h) = record {
  below = h;
  off_names = inr (omega (arith, o.names_end, o.dims_end, o.counts_end));
  off_dims = inr (omega (arith, o.dims_end, o.counts_end));
  off_counts = inr (omega (arith, o.counts_end));
}
Apart-InUse inside o a b (in_names l h) = record {
  below = omega (arith, o.names_end, o.dims_end, o.counts_end);
  off_names = inl h;
  off_dims = inl (omega (arith, o.names_end));
  off_counts = inl (omega (arith, o.names_end, o.dims_end));
}
Apart-InUse inside o a b (in_dims l h) = record {
  below = omega (arith, o.dims_end, o.counts_end);
  off_names = inr (omega (arith, o.names_end));
  off_dims = inl h;
  off_counts = inl (omega (arith, o.dims_end));
}
Apart-InUse inside o a b (in_counts l h) = record {
  below = omega (arith, o.counts_end);
  off_names = inr (omega (arith, o.names_end, o.dims_end));
  off_dims = inr (omega (arith, o.dims_end));
  off_counts = inl h;
}

Apart-first :
    {t : Tables} {i n lo lo' q : ℕ} → i < n → lo ≤ lo' → Apart t i n lo q → Apart t i (suc i) lo' q
Apart-first h k off = record {
  below = omega (arith, off.below);
  off_names = ground (arith, off.off_names);
  off_dims = ground (arith, off.off_dims);
  off_counts = ground (arith, off.off_counts);
}

Apart-next : {t : Tables} {i n lo lo' q : ℕ} → lo ≤ lo' → Apart t i n lo q → Apart t (suc i) n lo' q
Apart-next k off = record {
  below = omega (arith, off.below);
  off_names = ground (arith, off.off_names);
  off_dims = ground (arith, off.off_dims);
  off_counts = ground (arith, off.off_counts);
}

copy_nodes-cons :
    (t : Tables) (i : ℕ) (node : Node) (nodes : List Node) (a a' : LumenArena) (m m' : Memory)
    → copy_node t i node a m ≡ some (a', m')
    → copy_nodes t i (node ∷ nodes) a m ≡ copy_nodes t (suc i) nodes a' m'
unfolding copy_nodes
copy_nodes-cons t i node nodes a a' m m' e =
    ap
      (λ (r : Option (LumenArena × Memory)). elim r [
        | none ↦ none
        | some (b, m₁) ↦ copy_nodes t (suc i) nodes b m₁
      ])
      e

pub copy_nodes_lem :
    (t : Tables) (i n : ℕ) (nodes : List Node) (a : LumenArena) (m : Memory) (rest lo : ℕ)
    → n ≡ i + length nodes
    → HasRoom a (nodes_blocks nodes + rest)
    → Ordered t n lo
    → lo ≤ end_of a
    → Copied t i n nodes a m rest
unfolding copy_nodes AllStored
copy_nodes_lem t i n [] a m rest lo e h o above = record {
  new_offset = a.offset;
  memory = m;
  ran = refl;
  grows = omega arith;
  room = HasRoom-less (omega arith) h;
  stored = tt;
  kept = λ q off. refl;
}
copy_nodes_lem t i n (node ∷ nodes) a m rest lo e h o above =
    let (ran, h') =
      copy_node-granted t i node a m (nodes_blocks nodes + rest) (HasRoom-less (omega arith) h) in
    let a' = advanced (advanced a (name_block node)) (dims_block node) in
    let d = end_of (advanced a (name_block node)) in
    let m' = copied t i node (end_of a) d m in
    let ih = copy_nodes_lem t (suc i) n nodes a' m' rest lo (omega arith) h' o (omega arith) in
    let here : Stored t i (end_of a) (end_of a') node m' =
      copied-Stored t i node (end_of a) d m {n = n} (omega arith)
        (record {
          names_end = o.names_end;
          dims_end = o.dims_end;
          counts_end = omega (arith, o.counts_end);
        })
        (omega arith) (omega arith) (omega arith) in
    record {
      new_offset = ih.new_offset;
      memory = ih.memory;
      ran = copy_nodes-cons t i node nodes a a' m m' ran ∙ ih.ran;
      grows = omega (arith, ih.grows);
      room = ih.room;
      stored = (
        Stored-wider (omega arith) (omega (arith, ih.grows)) (
            Stored-cong m' ih.memory
              (λ q u. ih.kept q (Apart-InUse (omega arith) o above (omega arith) u)) here),
        AllStored-wider t (suc i) nodes ih.memory (omega arith) (omega arith) ih.stored,
      );
      kept = λ q off.
          ih.kept q (Apart-next (omega arith) off)
          ∙ copied-Apart t i node (end_of a) d m {lo = end_of a} (omega arith) (omega arith)
              (Apart-first (omega arith) (omega arith) off);
    }
