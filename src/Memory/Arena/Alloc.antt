-- ===== src/Memory/Arena/Alloc.antt =====
-- `LumenArena::alloc_raw` in src/LumenArena.cpp: where a block lies.
use lumen_engine.Prelude.{
  ℕ, ◌+◌, ◌*◌, ◌/◌, ◌%◌, ◌^◌, ◌≤◌, ◌<◌, ◌≡◌, Bool, Option, none, some, List, [], ◌∷◌, arith, word,
  dec_le,
}
use lumen_engine.Memory.Arena.{
  LumenArena, new_arena, created, reserved_bytes, safety_margin, alloc_raw, alloc, alloc_typed,
  alloc_all,
}

-- The slab is aligned to 64 bytes and does not reach the end of the address space; the marks lie
-- in it, at multiples of 64.
pub record IsValid (a : LumenArena) : Type 0 where
  pub aligned : a.arena_ptr % 64 ≡ 0
  pub addressed : a.arena_ptr + a.capacity < 2 ^ 63
  pub offset_in : a.offset ≤ a.capacity
  pub warmup_in : a.warmup_offset ≤ a.capacity
  pub offset_aligned : a.offset % 64 ≡ 0
  pub warmup_aligned : a.warmup_offset % 64 ≡ 0

-- If `aligned_alloc` returns aligned memory that does not reach the end of the address space, a
-- constructed arena for fewer than 2^62 bytes is valid and has the requested capacity; the memory
-- behind it is a whole number of 64-byte lines and at least the safety margin larger.
new_arena-IsValid :
    (aligned_alloc : ℕ → ℕ → Option ℕ) (has_memory_info : Bool) (capacity p : ℕ)
    → capacity < 2 ^ 62
    → aligned_alloc 64 (reserved_bytes capacity) ≡ some p
    → p % 64 ≡ 0
    → p + reserved_bytes capacity < 2 ^ 63
    → {a : LumenArena} → new_arena aligned_alloc has_memory_info capacity ≡ created a
    → IsValid a
      × (a.arena_ptr ≡ p)
      × (a.capacity ≡ capacity)
      × (capacity + safety_margin ≤ reserved_bytes capacity)
      × (reserved_bytes capacity % 64 ≡ 0)
unfolding new_arena
new_arena-IsValid aligned_alloc has_memory_info capacity p small e q fits made = ground arith

-- In a valid arena a request below 2^62 bytes, at an alignment of at most 64, that fits behind the
-- offset when rounded up to 64 is granted: its block starts at the old offset, is aligned to 64
-- bytes and ends by the new offset, fewer than 64 bytes are lost, and the arena stays valid.
pub alloc_raw_fits :
    (a : LumenArena) (size alignment : ℕ)
    → IsValid a
    → size < 2 ^ 62
    → alignment ≤ 64
    → a.offset + (size + 63) / 64 * 64 ≤ a.capacity
    → let (p, b) = alloc_raw a size alignment in
      (p ≡ some (a.arena_ptr + a.offset))
      × ((a.arena_ptr + a.offset) % 64 ≡ 0)
      × (a.offset + size ≤ b.offset)
      × (b.offset < a.offset + size + 64)
      × IsValid b
unfolding alloc_raw
alloc_raw_fits a size alignment v small al fits = ground arith

-- In a valid arena a request below 2^62 bytes, at an alignment of at most 64, that does not fit
-- behind the offset when rounded up to 64 gets the null pointer and changes nothing.
pub alloc_raw_full :
    (a : LumenArena) (size alignment : ℕ)
    → IsValid a
    → size < 2 ^ 62
    → alignment ≤ 64
    → a.capacity < a.offset + (size + 63) / 64 * 64
    → alloc_raw a size alignment ≡ (none, a)
unfolding alloc_raw
alloc_raw_full a size alignment v small al over = ground arith

-- No allocation touches anything but the offset.
pub alloc_raw-keeps :
    (a : LumenArena) (size alignment : ℕ)
    → let b = (alloc_raw a size alignment).1 in
      (b.arena_ptr ≡ a.arena_ptr)
      × (b.capacity ≡ a.capacity)
      × (b.warmup_offset ≡ a.warmup_offset)
      × (b.warmed_up ≡ a.warmed_up)
unfolding alloc_raw
alloc_raw-keeps a size alignment = ground arith

-- The size is rounded up with a wrap: in a valid arena a request of more than 2^64 - 64 bytes, at
-- an alignment of at most 64, is granted, at the current offset, and the offset does not move.
pub alloc_raw_wraps :
    (a : LumenArena) (size alignment : ℕ)
    → IsValid a
    → word < size + 64
    → size < word
    → alignment ≤ 64
    → alloc_raw a size alignment ≡ (some (a.arena_ptr + a.offset), a)
unfolding alloc_raw
alloc_raw_wraps a size alignment v big fits al = ground arith

-- `alloc_typed` multiplies with a wrap too: 2^61 elements of eight bytes take none.
pub alloc_typed_wraps :
    (a : LumenArena) (count : ℕ)
    → IsValid a
    → count % 2 ^ 61 ≡ 0
    → alloc_typed a 8 8 count ≡ (some (a.arena_ptr + a.offset), a)
unfolding alloc_typed alloc_raw
alloc_typed_wraps a count v h = ground arith

-- The blocks of a list of requests, between two addresses: each granted block is aligned and
-- starts where the granted ones before it have ended, or later.
abbrev pub Placed : (lo hi : ℕ) → List ℕ → List (Option ℕ) → Type 0
Placed lo hi [] [] = lo ≤ hi
Placed lo hi (size ∷ sizes) (none ∷ ps) = Placed lo hi sizes ps
Placed lo hi (size ∷ sizes) (some p ∷ ps) = (lo ≤ p) × (p % 64 ≡ 0) × Placed (p + size) hi sizes ps
Placed lo hi _ _ = ⊥

abbrev pub AllSmall : List ℕ → Type 0
AllSmall [] = Unit
AllSmall (size ∷ sizes) = (size < 2 ^ 62) × AllSmall sizes

Placed-mono :
    (sizes : List ℕ) (ps : List (Option ℕ)) {lo lo' hi hi' : ℕ}
    → lo ≤ lo'
    → hi' ≤ hi
    → Placed lo' hi' sizes ps
    → Placed lo hi sizes ps
Placed-mono [] [] h k p = omega arith
Placed-mono [] (q ∷ ps) h k p = absurd p
Placed-mono (size ∷ sizes) [] h k p = absurd p
Placed-mono (size ∷ sizes) (none ∷ ps) h k p = Placed-mono sizes ps h k p
Placed-mono (size ∷ sizes) (some q ∷ ps) h k p =
    (omega arith, p.1, Placed-mono sizes ps (omega arith) k p.2)

-- In a valid arena, whatever requests of fewer than 2^62 bytes are made in a row: the granted
-- blocks lie in the slab behind the offset, each aligned to 64 bytes and none beginning before the
-- granted ones before it have ended; the arena stays valid, and its offset does not fall.
pub alloc_all-Placed :
    (sizes : List ℕ) (a : LumenArena)
    → IsValid a
    → AllSmall sizes
    → let (ps, b) = alloc_all sizes a in
      Placed (a.arena_ptr + a.offset) (a.arena_ptr + a.capacity) sizes ps
      × IsValid b
      × (a.offset ≤ b.offset)
unfolding alloc_all alloc
alloc_all-Placed [] a v small = (omega arith, v, omega arith)
alloc_all-Placed (size ∷ sizes) a v small =
    let b = (alloc_raw a size 64).1 in
    let (same_ptr, same_capacity, _, _) = alloc_raw-keeps a size 64 in
    elim (dec_le (a.offset + (size + 63) / 64 * 64) a.capacity) [
      | yes fits ↦
          let (granted, aligned, behind, _, vb) =
            alloc_raw_fits a size 64 v small.0 (omega arith) fits in
          let (placed, vc, grows) = alloc_all-Placed sizes b vb small.1 in
          rw granted (
            (omega arith, aligned, Placed-mono sizes _ (omega arith) (omega arith) placed),
            vc,
            omega arith,
          )
      | no over ↦
          rw (alloc_raw_full a size 64 v small.0 (omega arith) (omega arith))
            (alloc_all-Placed sizes a v small.1)
    ]
