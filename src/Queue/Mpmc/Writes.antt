-- ===== src/Queue/Mpmc/Writes.antt =====
-- MPMCTaskQueue.hpp: the accesses that write a slot, and the invariant.
use lumen_engine.Prelude.{
  ℕ, ◌+◌, ◌<◌, ◌≡◌, refl, ℕ_discrete, ◌≢◌, inl, inr, Option, some, true, List, length-set, arith,
  add_size,
}
use lumen_engine.Queue.Interface.{Movable}
use lumen_engine.Queue.Mpmc.{
  capacity, masked, Cell, MpmcTaskQueue, Pc, push_cas, push_data, push_publish, push_done, pop_cas,
  pop_data, pop_release, pop_done, cell_at, write_cell,
}
use lumen_engine.Queue.Mpmc.System.{update}
use lumen_engine.Queue.Mpmc.Inv.{push_ticket, pop_ticket, ThreadOk, Inv}
use lumen_engine.Queue.Mpmc.Cells.{
  update_ne, update_eq, cell_at_cong, cell_at-write_cell, Relies, write_cell-ThreadOk,
}

module _ {A : Type 0} ⦃m : Movable A⦄ where
  module _ {q : MpmcTaskQueue A} {pc : ℕ → Pc A} {log : List A} {delivered : ℕ → Option A}
      (inv : Inv q pc log delivered) (i : ℕ) where
    open inv use {
      slots, ordered, bounded, logged, few, cells, threads, push_unique, pop_unique, push_covered,
      pop_covered, undelivered, in_order,
    }

    pub threads_at : (p : Pc A) → pc i ≡ p → ThreadOk q log p
    threads_at p e = rw e at (threads i)

    -- No other thread looks at the slot of a push ticket that thread `i` holds.
    push_free :
        (t : ℕ)
        → push_ticket (pc i) ≡ some t
        → (cell_at q t).sequence ≡ t
        → t < q.tail
        → (j : ℕ) → i ≢ j
        → (p : Pc A) → pc j ≡ p
        → (u : ℕ) → Relies q p u
        → masked u ≢ masked t
    push_free t e s lt j ne (push_cas y k) r u w same =
        ground (arith, threads j, cell_at_cong q u t same)
    push_free t e s lt j ne (push_data y k) r u w same =
        ground (arith, threads j, cell_at_cong q u t same, push_unique i j t)
    push_free t e s lt j ne (push_publish k) r u w same =
        ground (arith, threads j, cell_at_cong q u t same, push_unique i j t)
    push_free t e s lt j ne (pop_cas k) r u w same =
        ground (arith, threads j, cell_at_cong q u t same)
    push_free t e s lt j ne (pop_data k) r u w same =
        ground (arith, threads j, cell_at_cong q u t same)
    push_free t e s lt j ne (pop_release y k) r u w same =
        ground (arith, threads j, cell_at_cong q u t same)
    push_free t e s lt j ne _ r u w same = absurd w

    -- Nor at the slot of a pop ticket.
    pop_free :
        (h : ℕ)
        → pop_ticket (pc i) ≡ some h
        → (cell_at q h).sequence ≡ h + 1
        → h < q.head
        → (j : ℕ) → i ≢ j
        → (p : Pc A) → pc j ≡ p
        → (u : ℕ) → Relies q p u
        → masked u ≢ masked h
    pop_free t e s lt j ne (push_cas y k) r u w same =
        ground (arith, threads j, cell_at_cong q u t same)
    pop_free t e s lt j ne (push_data y k) r u w same =
        ground (arith, threads j, cell_at_cong q u t same)
    pop_free t e s lt j ne (push_publish k) r u w same =
        ground (arith, threads j, cell_at_cong q u t same)
    pop_free t e s lt j ne (pop_cas k) r u w same =
        ground (arith, threads j, cell_at_cong q u t same)
    pop_free t e s lt j ne (pop_data k) r u w same =
        ground (arith, threads j, cell_at_cong q u t same, pop_unique i j t)
    pop_free t e s lt j ne (pop_release y k) r u w same =
        ground (arith, threads j, cell_at_cong q u t same, pop_unique i j t)
    pop_free t e s lt j ne _ r u w same = absurd w

    -- The threads after a write by thread `i`, which goes on to `p'`.
    written_threads :
        (x : ℕ) (c : Cell A) (p' : Pc A)
        → ((j : ℕ) → i ≢ j → (p : Pc A) → pc j ≡ p → (u : ℕ) → Relies q p u → masked u ≢ masked x)
        → ThreadOk (write_cell q x c) log p'
        → (j : ℕ) → ThreadOk (write_cell q x c) log (update pc i p' j)
    written_threads x c p' free own j = elim (ℕ_discrete i j) [
      | yes same ↦ rw (update_eq pc i j p' same) own
      | no ne ↦
          rw (update_ne pc i j p' ne)
            (write_cell-ThreadOk q log x c slots (pc j) (free j ne (pc j) refl) (threads j))
    ]

    pub push_data-Inv :
        (x : A) (t : ℕ)
        → pc i ≡ push_data x t
        → Inv
            (write_cell q t (record (cell_at q t) { value = x }))
            (update pc i (push_publish t))
            log
            delivered
    unfolding write_cell
    push_data-Inv x t e =
        let own = threads_at (push_data x t) e in
        let c : Cell A = record (cell_at q t) { value = x } in
        record {
          slots = omega (arith, length-set q.buffer (masked t) c);
          ordered = ordered;
          bounded = bounded;
          logged = logged;
          few = few;
          cells =
              λ y. ground (arith, cells y, cells t, cell_at-write_cell q t y c, cell_at_cong q t y);
          threads =
              written_threads t c (push_publish t) (push_free t (ground arith) own.1 own.0)
                (ground (arith, cell_at-write_cell q t t c));
          push_unique =
              λ j k u p r. ground (arith, push_unique i k u, push_unique j i u, push_unique j k u);
          pop_unique = λ j k u p r. ground (arith, pop_unique j k u);
          push_covered = λ u lo hi. elim (push_covered u lo hi) [
            | inl full ↦ inl (ground (arith, cell_at-write_cell q t u c, cell_at_cong q t u))
            | inr (k, held) ↦ inr (k, ground arith)
          ];
          pop_covered = λ u lo. elim (pop_covered u lo) [
            | inl given ↦ inl given
            | inr (k, held) ↦ inr (k, ground arith)
          ];
          undelivered = λ j u p. ground (arith, undelivered j u);
          in_order = in_order;
        }

    pub push_publish-Inv :
        (t : ℕ)
        → pc i ≡ push_publish t
        → Inv
            (write_cell q t (record (cell_at q t) { sequence = add_size t 1 }))
            (update pc i (push_done true))
            log
            delivered
    unfolding write_cell
    push_publish-Inv t e =
        let own = threads_at (push_publish t) e in
        let c : Cell A = record (cell_at q t) { sequence = add_size t 1 } in
        record {
          slots = omega (arith, length-set q.buffer (masked t) c);
          ordered = ordered;
          bounded = bounded;
          logged = logged;
          few = few;
          cells =
              λ y. ground (arith, cells y, cells t, cell_at-write_cell q t y c, cell_at_cong q t y);
          threads =
              written_threads t c (push_done true) (push_free t (ground arith) own.1 own.0) tt;
          push_unique = λ j k u p r. ground (arith, push_unique j k u);
          pop_unique = λ j k u p r. ground (arith, pop_unique j k u);
          push_covered = λ u lo hi. elim (ℕ_discrete t u) [
            | yes same ↦ inl (ground (arith, cell_at-write_cell q t u c))
            | no other ↦ elim (push_covered u lo hi) [
              | inl full ↦ inl (ground (arith, cell_at-write_cell q t u c, cell_at_cong q t u))
              | inr (k, held) ↦ inr (k, ground arith)
            ]
          ];
          pop_covered = λ u lo. elim (pop_covered u lo) [
            | inl given ↦ inl given
            | inr (k, held) ↦ inr (k, ground arith)
          ];
          undelivered = λ j u p. ground (arith, undelivered j u);
          in_order = in_order;
        }

    pub pop_data-Inv :
        (h : ℕ)
        → pc i ≡ pop_data h
        → Inv
            (write_cell q h (record (cell_at q h) { value = m.moved_from (cell_at q h).value }))
            (update pc i (pop_release (cell_at q h).value h))
            log
            delivered
    unfolding write_cell
    pop_data-Inv h e =
        let own = threads_at (pop_data h) e in
        let c : Cell A = record (cell_at q h) { value = m.moved_from (cell_at q h).value } in
        record {
          slots = omega (arith, length-set q.buffer (masked h) c);
          ordered = ordered;
          bounded = bounded;
          logged = logged;
          few = few;
          cells = λ y. ground (arith, cells y, cell_at-write_cell q h y c, cell_at_cong q h y);
          threads =
              written_threads h c (pop_release (cell_at q h).value h)
                (pop_free h (ground arith) own.1 own.0)
                (ground (arith, cell_at-write_cell q h h c));
          push_unique = λ j k u p r. ground (arith, push_unique j k u);
          pop_unique =
              λ j k u p r. ground (arith, pop_unique i k u, pop_unique j i u, pop_unique j k u);
          push_covered = λ u lo hi. elim (push_covered u lo hi) [
            | inl full ↦ inl (ground (arith, cell_at-write_cell q h u c, cell_at_cong q h u))
            | inr (k, held) ↦ inr (k, ground arith)
          ];
          pop_covered = λ u lo. elim (pop_covered u lo) [
            | inl given ↦ inl given
            | inr (k, held) ↦ inr (k, ground arith)
          ];
          undelivered = λ j u p. ground (arith, undelivered i u, undelivered j u);
          in_order = in_order;
        }

    pub pop_release-Inv :
        (x : A) (h : ℕ)
        → pc i ≡ pop_release x h
        → Inv
            (write_cell q h (record (cell_at q h) { sequence = add_size h capacity }))
            (update pc i (pop_done (some x)))
            log
            (update delivered h (some x))
    unfolding write_cell
    pop_release-Inv x h e =
        let own = threads_at (pop_release x h) e in
        let c : Cell A = record (cell_at q h) { sequence = add_size h capacity } in
        record {
          slots = omega (arith, length-set q.buffer (masked h) c);
          ordered = ordered;
          bounded = bounded;
          logged = logged;
          few = few;
          cells = λ y. ground (arith, cells y, cell_at-write_cell q h y c, cell_at_cong q h y);
          threads =
              written_threads h c (pop_done (some x)) (pop_free h (ground arith) own.1 own.0) tt;
          push_unique = λ j k u p r. ground (arith, push_unique j k u);
          pop_unique = λ j k u p r. ground (arith, pop_unique j k u);
          push_covered = λ u lo hi. elim (push_covered u lo hi) [
            | inl full ↦ inl (ground (arith, cell_at-write_cell q h u c, cell_at_cong q h u))
            | inr (k, held) ↦ inr (k, ground arith)
          ];
          pop_covered = λ u lo. elim (ℕ_discrete h u) [
            | yes same ↦ inl (ground arith)
            | no other ↦ elim (pop_covered u lo) [
              | inl given ↦ inl (ground arith)
              | inr (k, held) ↦ inr (k, ground arith)
            ]
          ];
          undelivered = λ j u p. ground (arith, undelivered j u, pop_unique i j u);
          in_order = λ u lo. ground (arith, in_order u);
        }
