-- ===== src/Queue/Mpmc/Alone/Steps.antt =====
-- MPMCTaskQueue.hpp: what a call makes of the tasks that the ring holds.
use lumen_engine.Prelude.{
  ℕ, suc, ◌+◌, ◌^◌, ◌<◌, ◌≡◌, sym, ap, ◌∙◌, true, false, some, none, List, [], ◌∷◌, ◌++◌, arith,
  length, length-append, get_elem?-append_of_lt, get_elem?-append_end, length-set, dec_lt,
}
use lumen_engine.Queue.Interface.{Movable}
use lumen_engine.Queue.Mpmc.{capacity, masked, Cell, MpmcTaskQueue, cell_at, write_cell}
use lumen_engine.Queue.Mpmc.Cells.{cell_at_cong}
use lumen_engine.Queue.Mpmc.Alone.{push, pop}
use lumen_engine.Queue.Mpmc.Alone.Ring.{
  Rings, after_push, after_pop, push_goes, push_full, pop_goes, pop_nothing, pushed_there,
  pushed_elsewhere, popped_there, popped_elsewhere,
}

module _ {A : Type 0} ⦃m : Movable A⦄ where
  sequence_at :
      (q : MpmcTaskQueue A) (x y n : ℕ)
      → masked x ≡ masked y
      → (cell_at q y).sequence ≡ n
      → (cell_at q x).sequence ≡ n
  sequence_at q x y n e h = ap (λ (c : Cell A). c.sequence) (cell_at_cong q x y e) ∙ h

  pub push-Rings :
      (x : A) (q : MpmcTaskQueue A) (start : ℕ) (xs : List A)
      → Rings q start xs
      → start + length xs < 2 ^ 62
      → length xs < capacity
      → q.stop_flag ≡ false
      → (push x q ≡ some (true, after_push x q)) × Rings (after_push x q) start (xs ++ (x ∷ []))
  unfolding write_cell
  push-Rings x q start xs r few room running =
      let t = q.tail in
      let grown = length-append xs (x ∷ []) in
      let waits : (cell_at q t).sequence ≡ t =
        sequence_at q t (start + length xs) t (omega (arith, r.tail_at))
          (r.free (length xs) (omega arith) room ∙ sym r.tail_at) in
      (
        push_goes x q running (ground (arith, waits)),
        record {
          slots = length-set _ (masked t) _ ∙ length-set _ (masked t) _ ∙ r.slots;
          head_at = r.head_at;
          tail_at = omega (arith, r.tail_at, grown);
          fits = omega (arith, grown);
          held = λ i l. elim (dec_lt i (length xs)) [
            | yes old ↦
                let apart =
                  pushed_elsewhere x q r.slots (start + i) (omega (arith, r.tail_at, r.fits)) in
                (
                  ap (λ (c : Cell A). c.sequence) apart ∙ (r.held i old).0,
                  get_elem?-append_of_lt xs (x ∷ []) i old
                      ∙ (r.held i old).1
                      ∙ sym (ap (λ (c : Cell A). some c.value) apart),
                )
            | no new ↦
                let e : i ≡ length xs = omega (arith, grown) in
                let (sequence, value) =
                  pushed_there x q r.slots (start + i) (omega (arith, r.tail_at)) in
                (
                  sequence ∙ omega (arith, r.tail_at),
                  get_elem?-append_end xs x i e ∙ sym (ap some value),
                )
          ];
          free = λ i l u.
              ap (λ (c : Cell A). c.sequence)
                (pushed_elsewhere x q r.slots (start + i) (omega (arith, r.tail_at, grown)))
              ∙ r.free i (omega (arith, grown)) u;
        },
      )

  pub push_refused :
      (x : A) (q : MpmcTaskQueue A) (start : ℕ) (xs : List A)
      → Rings q start xs
      → start + length xs < 2 ^ 62
      → length xs ≡ capacity
      → q.stop_flag ≡ false
      → push x q ≡ some (false, q)
  push_refused x q start xs r few full running =
      let sequence : (cell_at q q.tail).sequence ≡ start + 0 + 1 =
        sequence_at q q.tail (start + 0) (start + 0 + 1) (omega (arith, r.tail_at))
          (r.held 0 (omega arith)).0 in
      push_full x q running (ground (arith, sequence, r.tail_at))
        (ground (arith, sequence, r.tail_at))

  pub pop-Rings :
      (q : MpmcTaskQueue A) (start : ℕ) (x : A) (xs : List A)
      → Rings q start (x ∷ xs)
      → start + suc (length xs) < 2 ^ 62
      → (pop q ≡ some (some x, after_pop q)) × Rings (after_pop q) (start + 1) xs
  unfolding write_cell
  pop-Rings q start x xs r few =
      let h = q.head in
      let first = r.held 0 (omega arith) in
      let place : masked h ≡ masked (start + 0) = omega (arith, r.head_at) in
      let full : (cell_at q h).sequence ≡ start + 0 + 1 =
        sequence_at q h (start + 0) _ place first.0 in
      (
        pop_goes q (ground (arith, full, r.head_at))
            ∙ ap (λ o. some (o, after_pop q))
                (ap (λ (c : Cell A). some c.value) (cell_at_cong q h (start + 0) place)
                  ∙ sym first.1),
        record {
          slots = length-set _ (masked h) _ ∙ length-set _ (masked h) _ ∙ r.slots;
          head_at = omega (arith, r.head_at);
          tail_at = omega (arith, r.tail_at);
          fits = omega (arith, r.fits);
          held = λ i l.
              let apart =
                popped_elsewhere q r.slots (start + 1 + i) (omega (arith, r.head_at, r.fits)) in
              let shift : start + 1 + i ≡ start + suc i = omega arith in
              let old = r.held (suc i) (omega arith) in
              let same : cell_at (after_pop q) (start + 1 + i) ≡ cell_at q (start + suc i) =
                apart ∙ ap (cell_at q) shift in
              (
                ap (λ (c : Cell A). c.sequence) same ∙ old.0 ∙ omega arith,
                old.1 ∙ sym (ap (λ (c : Cell A). some c.value) same),
              );
          free = λ i l u. elim (dec_lt (suc i) capacity) [
            | yes inside ↦
                ap (λ (c : Cell A). c.sequence)
                  (popped_elsewhere q r.slots (start + 1 + i) (omega (arith, r.head_at))
                    ∙ ap (cell_at q) (omega arith))
                ∙ r.free (suc i) (omega arith) inside
                ∙ omega arith
            | no last ↦
                popped_there q r.slots (start + 1 + i) (omega (arith, r.head_at))
                ∙ omega (arith, r.head_at)
          ];
        },
      )

  pub pop_refused :
      (q : MpmcTaskQueue A) (start : ℕ) → Rings q start [] → start < 2 ^ 62 → pop q ≡ some (none, q)
  pop_refused q start r few =
      let sequence : (cell_at q q.head).sequence ≡ start + 0 =
        sequence_at q q.head (start + 0) (start + 0) (omega (arith, r.head_at))
          (r.free 0 (omega arith) (omega arith)) in
      pop_nothing q (ground (arith, sequence, r.head_at)) (ground (arith, sequence, r.head_at))
