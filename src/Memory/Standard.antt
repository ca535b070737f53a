-- ===== src/Memory/Standard.antt =====
-- include/lumen/memory/StandardOrtAllocator.hpp: ONNX Runtime's default allocator with a count.
use lumen_engine.Prelude.{
  ℕ, ◌+◌, ◌%◌, ◌≡◌, Option, none, some, List, [], ◌∷◌, arith, word, add_size,
}

-- The count; the default allocator's own state is ONNX Runtime's.
pub record StandardOrtAllocator : Type 0 where
  pub current_allocated_bytes : ℕ

-- `p` is what ONNX Runtime's allocator returned for `size` bytes.
pub alloc : (p : Option ℕ) (size : ℕ) → StandardOrtAllocator → Option ℕ × StandardOrtAllocator
alloc none size s = (none, s)
alloc (some p) size s =
    (some p, record { current_allocated_bytes = add_size s.current_allocated_bytes size })

-- The pointer goes to ONNX Runtime's `Free`; the count is not touched.
pub free : Option ℕ → StandardOrtAllocator → StandardOrtAllocator
free p s = s

unfoldable pub get_allocated_size : StandardOrtAllocator → ℕ
get_allocated_size s = s.current_allocated_bytes

-- The calls of a client, with ONNX Runtime's answers.
pub data Call : Type 0 where
  allocated : Option ℕ → ℕ → Call
  freed : Option ℕ → Call

abbrev pub step : Call → StandardOrtAllocator → StandardOrtAllocator
step (Call.allocated p size) s = (alloc p size s).1
step (Call.freed p) s = free p s

pub run : List Call → StandardOrtAllocator → StandardOrtAllocator
run [] s = s
run (c ∷ calls) s = run calls (step c s)

-- The bytes of the granted requests, whether freed or not.
pub granted : List Call → ℕ
granted [] = 0
granted (Call.allocated none size ∷ calls) = granted calls
granted (Call.allocated (some p) size ∷ calls) = size + granted calls
granted (Call.freed p ∷ calls) = granted calls

-- From a count below 2^64, after any calls `GetAllocatedSize` is that count and the sum of all
-- sizes granted in them, modulo 2^64: no `Free` lowers it.
pub get_allocated_size-run :
    (calls : List Call) (s : StandardOrtAllocator)
    → get_allocated_size s % word ≡ get_allocated_size s
    → get_allocated_size (run calls s) ≡ (get_allocated_size s + granted calls) % word
unfolding get_allocated_size run granted alloc free
get_allocated_size-run [] s h = omega arith
get_allocated_size-run (Call.allocated none size ∷ calls) s h = get_allocated_size-run calls s h
get_allocated_size-run (Call.allocated (some p) size ∷ calls) s h = omega (
  arith,
  get_allocated_size-run calls
      (record { current_allocated_bytes = add_size s.current_allocated_bytes size }) (omega arith),
)
get_allocated_size-run (Call.freed p ∷ calls) s h = get_allocated_size-run calls s h
