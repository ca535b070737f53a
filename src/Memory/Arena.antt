-- ===== src/Memory/Arena.antt =====
-- src/LumenArena.cpp and include/lumen/memory/LumenArena.hpp: an allocator that only moves an
-- offset through one slab, and falls back to a mark when it is reset.
pub mod Alloc
pub mod Steady
pub mod Typed
use lumen_engine.Prelude.{
  ℕ, ◌+◌, ◌*◌, ◌%◌, Bool, true, false, Option, none, some, List, [], ◌∷◌, if◌then◌else◌, ltb,
  add_size, sub_size, mul_size, round_up_64,
}

-- Addresses are numbers; `none` is the null pointer. The ONNX interface table that the class
-- carries has no state of its own: its callbacks are `ort_alloc` and `free`.
pub record LumenArena : Type 0 where
  pub arena_ptr : ℕ
  pub capacity : ℕ
  pub offset : ℕ
  pub warmup_offset : ℕ
  pub warmed_up : Bool

pub data ArenaError : Type 0 where
  no_memory : ArenaError
  no_memory_info : ArenaError

pub data Created : Type 0 where
  created : LumenArena → Created
  thrown : ArenaError → Created

abbrev pub safety_margin : ℕ
safety_margin = 1024 * 1024

-- The bytes asked of the system. The parameter is reassigned, and the member of the same name is
-- not: it keeps the requested capacity.
abbrev pub reserved_bytes : ℕ → ℕ
reserved_bytes capacity = round_up_64 (add_size capacity safety_margin)

-- The constructor. `aligned_alloc alignment size` is the C library's, and `has_memory_info` says
-- whether ONNX Runtime could make the description of the memory.
unfoldable pub new_arena :
    (aligned_alloc : ℕ → ℕ → Option ℕ) (has_memory_info : Bool) (capacity : ℕ) → Created
new_arena aligned_alloc has_memory_info capacity =
    elim (aligned_alloc 64 (reserved_bytes capacity)) [
      | none ↦ thrown no_memory
      | some p ↦
          if has_memory_info
          then created (record {
            arena_ptr = p;
            capacity = capacity;
            offset = 0;
            warmup_offset = 0;
            warmed_up = false;
          })
          else thrown no_memory_info
    ]

abbrev pub effective_alignment : ℕ → ℕ
effective_alignment alignment = if ltb alignment 64 then 64 else alignment

abbrev pub current_addr : LumenArena → ℕ
current_addr a = add_size a.arena_ptr a.offset

abbrev pub padding : LumenArena → ℕ → ℕ
padding a alignment =
    sub_size (effective_alignment alignment) (current_addr a % effective_alignment alignment)
    % effective_alignment alignment

pub alloc_raw : LumenArena → (size alignment : ℕ) → Option ℕ × LumenArena
alloc_raw a size alignment =
    if ltb a.capacity (add_size (add_size a.offset (padding a alignment)) (round_up_64 size))
    then (none, a)
    else (
      some (add_size (current_addr a) (padding a alignment)),
      record a { offset = add_size a.offset (add_size (padding a alignment) (round_up_64 size)) },
    )

unfoldable pub alloc : LumenArena → ℕ → Option ℕ × LumenArena
alloc a size = alloc_raw a size 64

-- `OrtAlloc`; `FromOrt` finds the arena that the interface table stands in.
pub ort_alloc : LumenArena → ℕ → Option ℕ × LumenArena
ort_alloc a size = alloc_raw a size 64

-- `Free` and `OrtFree` do nothing.
unfoldable pub free : LumenArena → Option ℕ → LumenArena
free a p = a

-- `alloc_typed<T>(count)`, with `sizeof(T)` and `alignof(T)`.
pub alloc_typed : LumenArena → (size_of align_of count : ℕ) → Option ℕ × LumenArena
alloc_typed a size_of align_of count = alloc_raw a (mul_size count size_of) align_of

pub get_allocated_size : LumenArena → ℕ
get_allocated_size a = a.offset

pub get_capacity : LumenArena → ℕ
get_capacity a = a.capacity

-- The address of the interface table in an arena that lies at `this`, and back: `member` is the
-- table's offset in the class.
pub get_ort_interface : (member this : ℕ) → ℕ
get_ort_interface member this = add_size this member

pub from_ort : (member : ℕ) → Option ℕ → Option ℕ
from_ort member none = none
from_ort member (some p) = some (sub_size p member)

unfoldable pub reset : LumenArena → LumenArena
reset a =
    if a.warmed_up
    then record a { offset = a.warmup_offset }
    else record a { warmup_offset = a.offset; warmed_up = true; offset = a.offset }

-- The allocations of one inference request, in order, and the reset that ends it.
pub alloc_all : List ℕ → LumenArena → List (Option ℕ) × LumenArena
alloc_all [] a = ([], a)
alloc_all (size ∷ sizes) a =
    let r = alloc a size in let rest = alloc_all sizes r.1 in (r.0 ∷ rest.0, rest.1)

pub serve : List ℕ → LumenArena → List (Option ℕ) × LumenArena
serve sizes a = let r = alloc_all sizes a in (r.0, reset r.1)
