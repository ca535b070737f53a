-- ===== src/Queue/Mpmc/Pops.antt =====
-- MPMCTaskQueue.hpp: the access by which a pop claims its ticket, and the invariant.
use lumen_engine.Prelude.{
  ℕ, ◌+◌, ◌%◌, ◌<◌, ◌≡◌, ap, ℕ_discrete, dec_le, ◌≢◌, inl, inr, Option, none, some, List, get_elem?,
  sym, ◌∙◌, arith, add_size,
}
use lumen_engine.Queue.Interface.{Movable}
use lumen_engine.Queue.Mpmc.{
  capacity, Cell, MpmcTaskQueue, Pc, push_seq, push_cas, push_data, push_publish, pop_seq, pop_cas,
  pop_data, pop_release, cell_at,
}
use lumen_engine.Queue.Mpmc.System.{update}
use lumen_engine.Queue.Mpmc.Inv.{pop_ticket, CellOk, ThreadOk, Inv}
use lumen_engine.Queue.Mpmc.Cells.{update_ne, update_eq, cell_at_cong}
use lumen_engine.Queue.Mpmc.Claims.{cell_same, cell_at_head, pop_ticket_lt, full_cell}

module _ {A : Type 0} ⦃m : Movable A⦄ {q : MpmcTaskQueue A} {pc : ℕ → Pc A} {log : List A}
    {delivered : ℕ → Option A} (inv : Inv q pc log delivered) (i : ℕ) where
  open inv use {
    slots, ordered, bounded, logged, few, cells, threads, push_unique, pop_unique, push_covered,
    pop_covered, undelivered, in_order,
  }

  -- A thread's facts where `head` is one greater.
  popped-ThreadOk :
      (n : ℕ)
      → n ≡ q.head + 1
      → (p : Pc A) → ThreadOk q log p
      → ThreadOk (record q { head = n }) log p
  unfolding cell_at
  popped-ThreadOk n e (push_seq y t) ok = ok
  popped-ThreadOk n e (push_cas y t) ok = ok
  popped-ThreadOk n e (push_data y t) ok = ok
  popped-ThreadOk n e (push_publish t) ok = ok
  popped-ThreadOk n e (pop_data t) ok = (omega arith, ok.1, ok.2)
  popped-ThreadOk n e (pop_release y t) ok = (omega arith, ok.1, ok.2)
  popped-ThreadOk n e (pop_seq t) ok = omega arith
  popped-ThreadOk n e (pop_cas t) ok = (omega arith, λ w. absurd (omega arith))
  popped-ThreadOk n e _ ok = tt

  popped-CellOk :
      (n c : ℕ)
      → n ≡ q.head + 1
      → ((cell_at q c).sequence % capacity ≡ c % capacity → (cell_at q c).sequence ≢ q.head)
      → ((u : ℕ) → u ≡ q.head → delivered u ≡ none)
      → CellOk q log delivered c
      → CellOk (record q { head = n }) log delivered c
  unfolding cell_at
  popped-CellOk n c e ne fresh (inl (a, b, d)) =
      let apart = ne a in inl (a, omega arith, omega arith)
  popped-CellOk n c e ne fresh (inr (a, b, d, g, k, f)) = inr (
    a,
    b,
    d,
    g,
    λ w. elim (dec_le (cell_at q c).sequence q.head) [
      | yes old ↦ k old
      | no new ↦ fresh _ (omega arith)
    ],
    λ w. f (omega arith),
  )

  -- The compare-exchange of `pop` succeeds.
  pub pop_cas-Inv :
      (h : ℕ)
      → pc i ≡ pop_cas h
      → q.head ≡ h
      → Inv (record q { head = add_size h 1 }) (update pc i (pop_data h)) log delivered
  pop_cas-Inv h e win = record {
    slots = slots;
    ordered = ground (arith, full);
    bounded = omega arith;
    logged = logged;
    few = few;
    cells = λ c. popped-CellOk _ c grown (ahead c) (λ u w. in_order u (omega arith)) (cells c);
    threads = λ j. elim (ℕ_discrete i j) [
      | yes same ↦ rw (update_eq pc i j (pop_data h) same) new_thread
      | no ne ↦ rw (update_ne pc i j (pop_data h) ne) (popped-ThreadOk _ grown (pc j) (threads j))
    ];
    push_unique = λ j k u p r. ground (arith, push_unique j k u);
    pop_unique = λ j k u p r. ground (arith, pop_unique j k u, threads_lt j u, threads_lt k u);
    push_covered = λ u lo hi. elim (push_covered u (omega arith) hi) [
      | inl done ↦ inl (cell_at_head inv i u (add_size h 1) ∙ done)
      | inr (k, held) ↦ inr (k, ground arith)
    ];
    pop_covered = λ u lo. elim (ℕ_discrete h u) [
      | yes same ↦ inr (i, ground arith)
      | no other ↦ elim (pop_covered u (omega arith)) [
        | inl given ↦ inl given
        | inr (k, held) ↦ inr (k, ground arith)
      ]
    ];
    undelivered = λ j u p. ground (arith, undelivered j u, in_order u);
    in_order = λ u lo. in_order u (omega arith);
  }
    where
      own : ThreadOk q log (pop_cas h)
      own = rw e at (threads i)

      grown : add_size h 1 ≡ q.head + 1
      grown = omega arith

      seq : (cell_at q h).sequence ≡ h + 1
      seq = own.1 (sym win)

      ahead :
          (c : ℕ)
          → (cell_at q c).sequence % capacity ≡ c % capacity
          → (cell_at q c).sequence ≢ q.head
      ahead c a w = ground (arith, seq, cells c, cell_at_cong q c h)

      full : (h < q.tail) × (get_elem? log h ≡ some (cell_at q h).value)
      full = full_cell inv i h seq (omega arith) (cells h)

      threads_lt : (j u : ℕ) → pop_ticket (pc j) ≡ some u → u < q.head
      threads_lt j u r = pop_ticket_lt inv i (pc j) u (threads j) r

      new_thread : ThreadOk (record q { head = add_size h 1 }) log (pop_data h)
      new_thread = (
        omega arith,
        cell_at_head inv i h (add_size h 1) ∙ seq,
        full.1 ∙ ap (λ (c : Cell A). some c.value) (sym (cell_same inv i h (add_size h 1))),
      )
