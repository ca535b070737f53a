-- ===== src/Queue/Spsc/Batch.antt =====
-- The loop of `pop_batch` in SPSCTaskQueue.hpp.
use lumen_engine.Prelude.{
  ℕ, zero, suc, ◌+◌, ◌≡◌, refl, ◌∙◌, sym, ap, Option, none, some, List, [], ◌∷◌, ◌++◌, append-nil,
  append_assoc, arith, length, take, drop, min, Bool,
}
use lumen_engine.Queue.Interface.{Movable}
use lumen_engine.Queue.Spsc.{SpscTaskQueue, pop, pop_batch_loop}
use lumen_engine.Queue.Spsc.Refine.{Holds, pop-Holds, pop-Holds_nil}

module _ {A : Type 0} ⦃m : Movable A⦄ where
  -- What the loop leaves when it was entered with the tasks `xs` in the queue.
  pub record Drained (rounds count : ℕ) (batch xs : List A) (stop : Bool)
      (out : ℕ × List A × SpscTaskQueue A) : Type 0 where
    pub counted : out.0 ≡ count + min rounds (length xs)
    pub appended : out.1 ≡ batch ++ take rounds xs
    pub start : ℕ
    pub left : Holds out.2 start (drop rounds xs)
    pub flag : out.2.stop_flag ≡ stop

  pop_batch_loop_step :
      (rounds count : ℕ) (batch : List A) (q : SpscTaskQueue A) {r : Option A × SpscTaskQueue A}
      → pop q ≡ r
      → pop_batch_loop (suc rounds) count batch q ≡ elim r.0 [
        | none ↦ (count, batch, r.1)
        | some x ↦ pop_batch_loop rounds (count + 1) (batch ++ (x ∷ [])) r.1
      ]
  unfolding pop_batch_loop
  pop_batch_loop_step rounds count batch q e =
      ap
        (λ r. elim r.0 [
          | none ↦ (count, batch, r.1)
          | some x ↦ pop_batch_loop rounds (count + 1) (batch ++ (x ∷ [])) r.1
        ])
        e

  pub pop_batch_loop-Drained :
      (rounds count : ℕ) (batch xs : List A) {q : SpscTaskQueue A} {start : ℕ}
      → Holds q start xs
      → Drained rounds count batch xs q.stop_flag (pop_batch_loop rounds count batch q)
  unfolding pop_batch_loop
  pop_batch_loop-Drained zero count batch xs {start} h = record {
    counted = omega arith;
    appended = sym (append-nil batch);
    start = start;
    left = h;
    flag = refl;
  }
  pop_batch_loop-Drained (suc rounds) count batch [] {q} {start} h =
      rw (pop_batch_loop_step rounds count batch q (pop-Holds_nil h)) (record {
        counted = omega arith;
        appended = sym (append-nil batch);
        start = start;
        left = h;
        flag = refl;
      })
  pop_batch_loop-Drained (suc rounds) count batch (x ∷ xs) {q} h =
      let (r, e, h', s) = pop-Holds x xs h in
      let ih = pop_batch_loop-Drained rounds (count + 1) (batch ++ (x ∷ [])) xs h' in
      rw (pop_batch_loop_step rounds count batch q e, ← s)
        (record {
          counted = omega (arith, ih.counted);
          appended = ih.appended ∙ append_assoc batch (x ∷ []) (take rounds xs);
          start = ih.start;
          left = ih.left;
          flag = ih.flag;
        })
