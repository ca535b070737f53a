-- ===== src/Memory/Tests.antt =====
-- Instances of the allocators' theorems on small arenas.
use lumen_engine.Prelude.{
  ◌+◌, ◌-◌, ◌%◌, ◌^◌, ◌≤◌, ◌≡◌, refl, true, false, none, some, List, [], ◌∷◌, arith, map, word,
}
use lumen_engine.Memory.Arena.{LumenArena, alloc_raw, alloc_all, get_allocated_size}
use lumen_engine.Memory.Arena.Alloc.{IsValid, alloc_raw_wraps, Placed, alloc_all-Placed}
use lumen_engine.Memory.Arena.Steady.{serve_all, serve_all_lem, get_allocated_size-serve_all}
use lumen_engine.Memory.Standard.{StandardOrtAllocator, Call, run, granted, get_allocated_size-run}
use lumen_engine.Memory.Standard

abbrev small : LumenArena
small = record {
  arena_ptr = 640;
  capacity = 300;
  offset = 64;
  warmup_offset = 0;
  warmed_up = false;
}

abbrev steady : LumenArena
steady = record small { warmup_offset = 64; warmed_up = true }

alloc_raw_wraps_example : alloc_raw small (2 ^ 64 - 1) 64 ≡ (some 704, small)
alloc_raw_wraps_example =
    alloc_raw_wraps small (2 ^ 64 - 1) 64 (omega arith) (omega arith) (omega arith) (omega arith)

alloc_all-Placed_example :
    let (ps, b) = alloc_all (100 ∷ 250 ∷ 20 ∷ []) small in
    Placed 704 940 (100 ∷ 250 ∷ 20 ∷ []) ps × IsValid b × (64 ≤ b.offset)
alloc_all-Placed_example = alloc_all-Placed (100 ∷ 250 ∷ 20 ∷ []) small (omega arith) (omega arith)

serve_all_lem_example :
    serve_all ((10 ∷ []) ∷ (20 ∷ 30 ∷ []) ∷ []) steady
    ≡ (map (λ sizes. (alloc_all sizes steady).0) ((10 ∷ []) ∷ (20 ∷ 30 ∷ []) ∷ []), steady)
serve_all_lem_example =
    serve_all_lem ((10 ∷ []) ∷ (20 ∷ 30 ∷ []) ∷ []) steady (record { warm = refl; at_mark = refl })

get_allocated_size-serve_all_example :
    get_allocated_size (serve_all ((10 ∷ []) ∷ (20 ∷ []) ∷ []) small).1
    ≡ get_allocated_size (alloc_all (10 ∷ []) small).1
get_allocated_size-serve_all_example =
    get_allocated_size-serve_all (10 ∷ []) ((20 ∷ []) ∷ []) small refl

abbrev calls : List Call
calls = Call.allocated (some 4096) 100 ∷ Call.freed (some 4096) ∷ Call.allocated none 50 ∷ []

get_allocated_size-run_example :
    Standard.get_allocated_size (run calls (record { current_allocated_bytes = 0 }))
    ≡ (Standard.get_allocated_size (record { current_allocated_bytes = 0 }) + granted calls) % word
unfolding Standard.get_allocated_size
get_allocated_size-run_example =
    get_allocated_size-run calls (record { current_allocated_bytes = 0 }) (omega arith)
