-- ===== src/Memory/Arena/Typed.antt =====
-- `LumenArena::alloc_typed` in include/lumen/memory/LumenArena.hpp.
use lumen_engine.Prelude.{
  ℕ, ◌+◌, ◌*◌, ◌/◌, ◌%◌, ◌^◌, ◌≤◌, ◌<◌, ◌≡◌, ap, ap₂, ◌∙◌, subst, some, arith,
}
use lumen_engine.Memory.Arena.{LumenArena, alloc_raw, alloc_typed}
use lumen_engine.Memory.Arena.Alloc.{IsValid, alloc_raw_fits, alloc_raw-keeps}

abbrev pub lines : ℕ → ℕ
lines size = (size + 63) / 64 * 64

abbrev pub advanced : LumenArena → ℕ → LumenArena
advanced a n = record a { offset = a.offset + n }

abbrev pub end_of : LumenArena → ℕ
end_of a = a.arena_ptr + a.offset

-- A valid arena of fewer than 2^62 bytes with room for `n` more.
pub record HasRoom (a : LumenArena) (n : ℕ) : Type 0 where
  pub valid : IsValid a
  pub small : a.capacity < 2 ^ 62
  pub room : a.offset + n ≤ a.capacity

pub HasRoom-less : {a : LumenArena} {n k : ℕ} → k ≤ n → HasRoom a n → HasRoom a k
HasRoom-less e h = record { valid = h.valid; small = h.small; room = omega (arith, h.room) }

alloc_raw-eq :
    (a : LumenArena) (size alignment : ℕ)
    → (alloc_raw a size alignment).1 ≡ record a { offset = (alloc_raw a size alignment).1.offset }
alloc_raw-eq a size alignment = ground (arith, alloc_raw-keeps a size alignment)

pub alloc_typed_fits :
    (a : LumenArena) (size_of align_of count rest : ℕ)
    → HasRoom a (lines (count * size_of) + rest)
    → align_of ≤ 64
    → (alloc_typed a size_of align_of count
        ≡ (some (end_of a), advanced a (lines (count * size_of))))
      × HasRoom (advanced a (lines (count * size_of))) rest
unfolding alloc_typed
alloc_typed_fits a size_of align_of count rest h al =
    let size = count * size_of in
    let wraps : size % 2 ^ 64 ≡ size = omega (arith, h.small, h.room) in
    let (p, aligned, lo, hi, v) =
      alloc_raw_fits a size align_of h.valid (omega (arith, h.small, h.room)) al
        (omega (arith, h.room)) in
    let at : (alloc_raw a size align_of).1.offset ≡ a.offset + lines size =
      omega (arith, v.offset_aligned, h.valid.offset_aligned) in
    let same : alloc_raw a size align_of ≡ (some (end_of a), advanced a (lines size)) =
      ap₂ (λ o b. (o, b)) p (alloc_raw-eq a size align_of ∙ ap (λ n. record a { offset = n }) at) in
    (
      ap (λ n. alloc_raw a n align_of) wraps ∙ same,
      record {
        valid = subst (λ r. IsValid r.1) same v;
        small = h.small;
        room = omega (arith, h.room);
      },
    )
