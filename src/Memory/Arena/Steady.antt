-- ===== src/Memory/Arena/Steady.antt =====
-- `LumenArena::reset` in src/LumenArena.cpp, over a worker's requests.
use lumen_engine.Prelude.{ℕ, ◌≡◌, refl, ◌∙◌, ap, true, false, Option, List, [], ◌∷◌, arith, map}
use lumen_engine.Memory.Arena.{LumenArena, alloc, alloc_all, reset, serve, get_allocated_size}
use lumen_engine.Memory.Arena.Alloc.{alloc_raw-keeps}

-- After its first reset an arena between two requests is at its mark.
pub record IsSteady (a : LumenArena) : Type 0 where
  pub warm : a.warmed_up ≡ true
  pub at_mark : a.offset ≡ a.warmup_offset

pub alloc-eq :
    (a : LumenArena) (size : ℕ) → (alloc a size).1 ≡ record a { offset = (alloc a size).1.offset }
unfolding alloc
alloc-eq a size = ground (arith, alloc_raw-keeps a size 64)

alloc_all-eq :
    (sizes : List ℕ) (a : LumenArena)
    → (alloc_all sizes a).1 ≡ record a { offset = (alloc_all sizes a).1.offset }
unfolding alloc_all
alloc_all-eq [] a = refl
alloc_all-eq (size ∷ sizes) a =
    alloc_all-eq sizes (alloc a size).1
    ∙ ap (λ (b : LumenArena). record b { offset = (alloc_all sizes (alloc a size).1).1.offset })
        (alloc-eq a size)

pub reset_offset : (a : LumenArena) (n : ℕ) → IsSteady a → reset (record a { offset = n }) ≡ a
unfolding reset
reset_offset a n s = ground arith

-- The reset after the first request makes an arena steady, and so does every later one.
pub serve-IsSteady : (sizes : List ℕ) (a : LumenArena) → IsSteady (serve sizes a).1
unfolding serve reset
serve-IsSteady sizes a = ground arith

pub serve_same : (sizes : List ℕ) (a : LumenArena) → IsSteady a → (serve sizes a).1 ≡ a
unfolding serve
serve_same sizes a s = ap reset (alloc_all-eq sizes a) ∙ reset_offset a _ s

-- A worker's requests, one after another.
pub serve_all : List (List ℕ) → LumenArena → List (List (Option ℕ)) × LumenArena
serve_all [] a = ([], a)
serve_all (sizes ∷ requests) a =
    let r = serve sizes a in let rest = serve_all requests r.1 in (r.0 ∷ rest.0, rest.1)

-- Once an arena has been reset and is at its mark, any number of requests leaves it as it was, and
-- each gets the addresses that it would get as the only one.
pub serve_all_lem :
    (requests : List (List ℕ)) (a : LumenArena)
    → IsSteady a
    → serve_all requests a ≡ (map (λ sizes. (alloc_all sizes a).0) requests, a)
unfolding serve_all serve
serve_all_lem [] a s = refl
serve_all_lem (sizes ∷ requests) a s =
    rw (serve_same sizes a s) (rw (serve_all_lem requests a s) refl)

first_reset :
    (sizes : List ℕ) (a : LumenArena)
    → a.warmed_up ≡ false
    → (serve sizes a).1.offset ≡ (alloc_all sizes a).1.offset
unfolding serve reset
first_reset sizes a cold = ground (arith, alloc_all-eq sizes a)

-- In an arena that has not been reset, what the first request takes stays taken: after it and any
-- number of further requests, each ended by a reset, the allocated size is what the first request
-- had reached.
pub get_allocated_size-serve_all :
    (first : List ℕ) (requests : List (List ℕ)) (a : LumenArena)
    → a.warmed_up ≡ false
    → get_allocated_size (serve_all (first ∷ requests) a).1
      ≡ get_allocated_size (alloc_all first a).1
unfolding get_allocated_size serve_all
get_allocated_size-serve_all first requests a cold =
    ap (λ (r : List (List (Option ℕ)) × LumenArena). r.1.offset)
      (serve_all_lem requests (serve first a).1 (serve-IsSteady first a))
    ∙ first_reset first a cold
