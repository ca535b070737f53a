-- ===== src/Engine/Worker/Room.antt =====
-- Room in the arena for what one inference of src/InferenceEngine.cpp asks of it.
use lumen_engine.Prelude.{
  ℕ, ◌+◌, ◌*◌, ◌^◌, ◌≤◌, ◌<◌, ◌≡◌, refl, ap, ap₂, ◌∙◌, subst, ◌&&◌, true, Option, none, some, List,
  [], ◌∷◌, arith,
}
use lumen_engine.Memory.Arena.{LumenArena, alloc, alloc_raw}
use lumen_engine.Memory.Arena.Alloc.{IsValid, AllSmall, alloc_raw_fits}
use lumen_engine.Memory.Arena.Steady.{alloc-eq}
use lumen_engine.Memory.Arena.Typed.{lines}
use lumen_engine.Memory.Interface.{arena_allocator}
use lumen_engine.Engine.Run.{
  InferenceEngine, grant_all, input_count, output_count, stays_in, has_tensors,
}

pub alloc_granted :
    (a : LumenArena) (size : ℕ)
    → IsValid a
    → size < 2 ^ 62
    → a.offset + lines size ≤ a.capacity
    → (p : ℕ) × (n : ℕ) × (alloc a size ≡ (some p, record a { offset = n }))
      × (n ≡ a.offset + lines size)
      × IsValid (record a { offset = n })
unfolding alloc
alloc_granted a size v small fits =
    let (granted, aligned, lo, hi, vb) = alloc_raw_fits a size 64 v small (omega arith) fits in
    (
      a.arena_ptr + a.offset,
      (alloc_raw a size 64).1.offset,
      ap₂ (λ o b. (o, b)) granted (alloc-eq a size),
      omega (arith, vb.offset_aligned, v.offset_aligned),
      subst IsValid (alloc-eq a size) vb,
    )

abbrev pub total_lines : List ℕ → ℕ
total_lines [] = 0
total_lines (size ∷ sizes) = lines size + total_lines sizes

pub grant_all-granted :
    (sizes : List ℕ) (a : LumenArena)
    → IsValid a
    → AllSmall sizes
    → a.offset + total_lines sizes ≤ a.capacity
    → (n : ℕ) × (grant_all arena_allocator sizes a ≡ some (record a { offset = n }))
unfolding grant_all
grant_all-granted [] a v small fits = (a.offset, refl)
grant_all-granted (size ∷ sizes) a v small fits =
    let (p, n, granted, at, vb) = alloc_granted a size v small.0 (omega arith) in
    let (m, rest) = grant_all-granted sizes (record a { offset = n }) vb small.1 (omega arith) in
    (
      m,
      ap
            (λ (r : Option ℕ × LumenArena). elim r.0 [
              | none ↦ none
              | some p ↦ grant_all arena_allocator sizes r.1
            ])
            granted
          ∙ rest,
    )

-- The engine's pictures fit: `transform` stays in its buffers, ONNX Runtime takes the two
-- shapes, and the two tensors and the session's own blocks fit behind the arena's offset.
pub record Roomy {F : Type 0} (e : InferenceEngine F) (a : LumenArena) : Type 0 where
  pub valid : IsValid a
  pub shaped : (stays_in e && has_tensors e) ≡ true
  pub input_small : input_count e < 2 ^ 59
  pub output_small : output_count e < 2 ^ 59
  pub session_small : AllSmall e.session_blocks
  pub fits :
      a.offset
        + lines (input_count e * 4)
        + lines (output_count e * 4)
        + total_lines e.session_blocks
      ≤ a.capacity
