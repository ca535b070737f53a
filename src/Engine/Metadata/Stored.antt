-- ===== src/Engine/Metadata/Stored.antt =====
-- src/InferenceEngine.cpp: a node's name and shape, as they stand in memory.
use lumen_engine.Prelude.{
  ℕ, suc, ◌+◌, ◌*◌, ◌^◌, ◌≤◌, ◌<◌, ◌≡◌, refl, ap₂, List, [], ◌∷◌, ◌++◌, arith, length, ap, ◌∙◌,
  length-append,
}
use lumen_engine.Memory.Bytes.{
  Memory, BytesAt, BytesAt-cong, word_bytes, ints_bytes, read_word_at, read_ints, read_ints_at,
  read_string, read_string_at, length-ints_bytes, length-bytes_of, IsCString, AllInt64,
}
use lumen_engine.Engine.Metadata.{Node, Tables, load_dims, load_node, load_nodes}

-- The node's entries in the arrays, and the blocks that they point to, which lie between two
-- addresses.
pub record Stored (t : Tables) (i : ℕ) (lo hi : ℕ) (node : Node) (m : Memory) : Type 0 where
  pub name_at : ℕ
  pub dims_at : ℕ
  pub name_entry : BytesAt m (t.names + i * 8) (word_bytes name_at)
  pub dims_entry : BytesAt m (t.dims + i * 8) (word_bytes dims_at)
  pub count_entry : BytesAt m (t.counts + i * 8) (word_bytes (length node.dims))
  pub name_bytes : BytesAt m name_at (node.name ++ (0 ∷ []))
  pub dims_bytes : BytesAt m dims_at (ints_bytes node.dims)
  pub name_in : (lo ≤ name_at) × (name_at + length node.name + 1 ≤ hi)
  pub dims_in : (lo ≤ dims_at) × (dims_at + length node.dims * 8 ≤ hi)

unfoldable pub AllStored : Tables → (i lo hi : ℕ) → List Node → Memory → Type 0
AllStored t i lo hi [] m = Unit
AllStored t i lo hi (node ∷ nodes) m = Stored t i lo hi node m × AllStored t (suc i) lo hi nodes m

-- The addresses that the entries from `i` to `n` and the blocks take up.
pub data InUse (t : Tables) (i n lo hi q : ℕ) : Type 0 where
  in_blocks : lo ≤ q → q < hi → InUse t i n lo hi q
  in_names : t.names + i * 8 ≤ q → q < t.names + n * 8 → InUse t i n lo hi q
  in_dims : t.dims + i * 8 ≤ q → q < t.dims + n * 8 → InUse t i n lo hi q
  in_counts : t.counts + i * 8 ≤ q → q < t.counts + n * 8 → InUse t i n lo hi q

pub Stored-cong :
    {t : Tables} {i lo hi : ℕ} {node : Node} (m m' : Memory)
    → ((q : ℕ) → InUse t i (suc i) lo hi q → m' q ≡ m q)
    → Stored t i lo hi node m
    → Stored t i lo hi node m'
Stored-cong {t} {i} {lo} {hi} {node} m m' same s = record {
  name_at = s.name_at;
  dims_at = s.dims_at;
  name_entry =
      BytesAt-cong m m' _ _
        (λ q l h. same q (in_names l (omega (arith, length-bytes_of 8 s.name_at)))) s.name_entry;
  dims_entry =
      BytesAt-cong m m' _ _
        (λ q l h. same q (in_dims l (omega (arith, length-bytes_of 8 s.dims_at)))) s.dims_entry;
  count_entry =
      BytesAt-cong m m' _ _
        (λ q l h. same q (in_counts l (omega (arith, length-bytes_of 8 (length node.dims)))))
        s.count_entry;
  name_bytes =
      BytesAt-cong m m' _ _
        (λ q l h. same q (
          in_blocks (omega (arith, s.name_in))
            (omega (arith, s.name_in, length-append node.name (0 ∷ [])))))
        s.name_bytes;
  dims_bytes =
      BytesAt-cong m m' _ _
        (λ q l h. same q (
          in_blocks (omega (arith, s.dims_in))
            (omega (arith, s.dims_in, length-ints_bytes node.dims))))
        s.dims_bytes;
  name_in = s.name_in;
  dims_in = s.dims_in;
}

InUse-wider :
    {t : Tables} {i i' n n' lo hi q : ℕ}
    → i' ≤ i
    → n ≤ n'
    → InUse t i n lo hi q
    → InUse t i' n' lo hi q
InUse-wider a b (in_blocks l h) = in_blocks l h
InUse-wider a b (in_names l h) = in_names (omega arith) (omega arith)
InUse-wider a b (in_dims l h) = in_dims (omega arith) (omega arith)
InUse-wider a b (in_counts l h) = in_counts (omega arith) (omega arith)

pub AllStored-cong :
    {t : Tables} {i n lo hi : ℕ} (nodes : List Node) (m m' : Memory)
    → n ≡ i + length nodes
    → ((q : ℕ) → InUse t i n lo hi q → m' q ≡ m q)
    → AllStored t i lo hi nodes m
    → AllStored t i lo hi nodes m'
unfolding AllStored
AllStored-cong [] m m' e same s = tt
AllStored-cong {n = n} (node ∷ nodes) m m' e same s = (
  Stored-cong m m' (λ q u. same q (InUse-wider (omega arith) (omega arith) u)) s.0,
  AllStored-cong {n = n} nodes m m' (omega arith)
      (λ q u. same q (InUse-wider (omega arith) (omega arith) u)) s.1,
)

pub Stored-wider :
    {t : Tables} {i lo lo' hi hi' : ℕ} {node : Node} {m : Memory}
    → lo' ≤ lo
    → hi ≤ hi'
    → Stored t i lo hi node m
    → Stored t i lo' hi' node m
Stored-wider a b s = record {
  name_at = s.name_at;
  dims_at = s.dims_at;
  name_entry = s.name_entry;
  dims_entry = s.dims_entry;
  count_entry = s.count_entry;
  name_bytes = s.name_bytes;
  dims_bytes = s.dims_bytes;
  name_in = (omega (arith, s.name_in), omega (arith, s.name_in));
  dims_in = (omega (arith, s.dims_in), omega (arith, s.dims_in));
}

pub AllStored-wider :
    (t : Tables) (i : ℕ) {lo lo' hi hi' : ℕ} (nodes : List Node) (m : Memory)
    → lo' ≤ lo
    → hi ≤ hi'
    → AllStored t i lo hi nodes m
    → AllStored t i lo' hi' nodes m
unfolding AllStored
AllStored-wider t i [] m a b s = tt
AllStored-wider t i (node ∷ nodes) m a b s =
    (Stored-wider a b s.0, AllStored-wider t (suc i) nodes m a b s.1)

-- A name without a null character, shorter than the limit, and dimensions of 64 bits.
pub record IsReadable (limit : ℕ) (node : Node) : Type 0 where
  pub characters : IsCString node.name
  pub short : length node.name < limit
  pub int64 : AllInt64 node.dims

abbrev pub AllReadable : (limit : ℕ) → List Node → Type 0
AllReadable limit [] = Unit
AllReadable limit (node ∷ nodes) = IsReadable limit node × AllReadable limit nodes

pub load_dims-Stored :
    {t : Tables} {i lo hi : ℕ} {node : Node} (m : Memory)
    → hi < 2 ^ 63
    → AllInt64 node.dims
    → Stored t i lo hi node m
    → load_dims m t i ≡ node.dims
load_dims-Stored {t} {i} {node = node} m top small s =
    ap₂ (λ p n. read_ints m p n)
      (read_word_at s.dims_at (t.dims + i * 8) m (omega (arith, s.dims_in)) s.dims_entry)
      (read_word_at (length node.dims) (t.counts + i * 8) m (omega (arith, s.dims_in))
        s.count_entry)
    ∙ read_ints_at node.dims s.dims_at m small s.dims_bytes

load_node-Stored :
    {t : Tables} {i lo hi : ℕ} {node : Node} (limit : ℕ) (m : Memory)
    → hi < 2 ^ 63
    → IsReadable limit node
    → Stored t i lo hi node m
    → load_node limit m t i ≡ node
load_node-Stored {t} {i} {node = node} limit m top ok s =
    ap₂ (λ name dims. record { name = name; dims = dims })
      (ap (λ p. read_string m p limit)
          (read_word_at s.name_at (t.names + i * 8) m (omega (arith, s.name_in)) s.name_entry)
        ∙ read_string_at node.name s.name_at limit m ok.characters ok.short s.name_bytes)
      (load_dims-Stored m top ok.int64 s)

pub load_nodes-AllStored :
    (t : Tables) (i : ℕ) (lo hi limit : ℕ) (nodes : List Node) (m : Memory)
    → hi < 2 ^ 63
    → AllReadable limit nodes
    → AllStored t i lo hi nodes m
    → load_nodes limit m t i (length nodes) ≡ nodes
unfolding load_nodes AllStored
load_nodes-AllStored t i lo hi limit [] m top ok s = refl
load_nodes-AllStored t i lo hi limit (node ∷ nodes) m top ok s =
    ap₂ (λ x xs. x ∷ xs) (load_node-Stored limit m top ok.0 s.0)
      (load_nodes-AllStored t (suc i) lo hi limit nodes m top ok.1 s.1)
