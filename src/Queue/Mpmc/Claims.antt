-- ===== src/Queue/Mpmc/Claims.antt =====
-- MPMCTaskQueue.hpp: the accesses that write no slot, and the invariant.
use lumen_engine.Prelude.{
  ℕ, ◌+◌, ◌%◌, ◌^◌, ◌≤◌, ◌<◌, ◌≡◌, refl, ℕ_discrete, ◌≢◌, inl, inr, Option, none, some, List, [],
  ◌∷◌, ◌++◌, get_elem?, length, length-append, get_elem?-append_of_lt, get_elem?-append_end, sym,
  ◌∙◌, arith, add_size,
}
use lumen_engine.Queue.Interface.{Movable}
use lumen_engine.Queue.Mpmc.{
  capacity, MpmcTaskQueue, Pc, push_seq, push_cas, push_data, push_publish, pop_seq, pop_cas,
  pop_data, pop_release, cell_at,
}
use lumen_engine.Queue.Mpmc.System.{update}
use lumen_engine.Queue.Mpmc.Inv.{push_ticket, pop_ticket, CellOk, ThreadOk, Inv}
use lumen_engine.Queue.Mpmc.Cells.{update_ne, update_eq, cell_at_cong}

module _ {A : Type 0} ⦃m : Movable A⦄ {q : MpmcTaskQueue A} {pc : ℕ → Pc A} {log : List A}
    {delivered : ℕ → Option A} (inv : Inv q pc log delivered) (i : ℕ) where
  open inv use {
    slots, ordered, bounded, logged, few, cells, threads, push_unique, pop_unique, push_covered,
    pop_covered, undelivered, in_order,
  }

  pub cell_same : (u n : ℕ) → cell_at (record q { head = n }) u ≡ cell_at q u
  unfolding cell_at
  cell_same u n = refl

  cell_at_tail : (u n : ℕ) → (cell_at (record q { tail = n }) u).sequence ≡ (cell_at q u).sequence
  unfolding cell_at
  cell_at_tail u n = refl

  pub cell_at_head :
      (u n : ℕ) → (cell_at (record q { head = n }) u).sequence ≡ (cell_at q u).sequence
  unfolding cell_at
  cell_at_head u n = refl

  ticket_lt : (p : Pc A) (u : ℕ) → ThreadOk q log p → push_ticket p ≡ some u → u < q.tail
  ticket_lt (push_data y t) u ok e = ground arith
  ticket_lt (push_publish t) u ok e = ground arith
  ticket_lt _ u ok e = cc

  pub pop_ticket_lt : (p : Pc A) (u : ℕ) → ThreadOk q log p → pop_ticket p ≡ some u → u < q.head
  pop_ticket_lt (pop_data t) u ok e = ground arith
  pop_ticket_lt (pop_release y t) u ok e = ground arith
  pop_ticket_lt _ u ok e = cc

  -- A slot whose sequence number is one above a position that is not popped holds its task.
  pub full_cell :
      (h : ℕ)
      → (cell_at q h).sequence ≡ h + 1
      → q.head ≤ h
      → CellOk q log delivered h
      → (h < q.tail) × (get_elem? log h ≡ some (cell_at q h).value)
  full_cell h e lo ok = ground arith

  -- A thread that holds no ticket moves on without a write, and claims none.
  pub local-Inv :
      (p' : Pc A)
      → push_ticket (pc i) ≡ none
      → pop_ticket (pc i) ≡ none
      → push_ticket p' ≡ none
      → pop_ticket p' ≡ none
      → ThreadOk q log p'
      → Inv q (update pc i p') log delivered
  local-Inv p' a b a' b' ok = record {
    slots = slots;
    ordered = ordered;
    bounded = bounded;
    logged = logged;
    few = few;
    cells = cells;
    threads = λ j. elim (ℕ_discrete i j) [
      | yes same ↦ rw (update_eq pc i j p' same) ok
      | no ne ↦ rw (update_ne pc i j p' ne) (threads j)
    ];
    push_unique = λ j k u p r. ground (arith, push_unique j k u);
    pop_unique = λ j k u p r. ground (arith, pop_unique j k u);
    push_covered = λ u lo hi. elim (push_covered u lo hi) [
      | inl full ↦ inl full
      | inr (k, held) ↦ inr (k, ground arith)
    ];
    pop_covered = λ u lo. elim (pop_covered u lo) [
      | inl given ↦ inl given
      | inr (k, held) ↦ inr (k, ground arith)
    ];
    undelivered = λ j u p. ground (arith, undelivered j u);
    in_order = in_order;
  }

  -- A thread's facts where `tail` is one greater and one task more is logged.
  claimed-ThreadOk :
      (x : A) (n : ℕ)
      → n ≡ q.tail + 1
      → (p : Pc A) → ThreadOk q log p
      → ThreadOk (record q { tail = n }) (log ++ (x ∷ [])) p
  unfolding cell_at
  claimed-ThreadOk x n e (push_seq y t) ok = omega arith
  claimed-ThreadOk x n e (push_cas y t) ok = (omega arith, λ w. absurd (omega arith))
  claimed-ThreadOk x n e (push_data y t) ok =
      (omega arith, ok.1, get_elem?-append_of_lt log (x ∷ []) t (omega arith) ∙ ok.2)
  claimed-ThreadOk x n e (push_publish t) ok =
      (omega arith, ok.1, get_elem?-append_of_lt log (x ∷ []) t (omega arith) ∙ ok.2)
  claimed-ThreadOk x n e (pop_data t) ok =
      (ok.0, ok.1, get_elem?-append_of_lt log (x ∷ []) t (omega arith) ∙ ok.2)
  claimed-ThreadOk x n e (pop_release y t) ok =
      (ok.0, ok.1, get_elem?-append_of_lt log (x ∷ []) t (omega arith) ∙ ok.2)
  claimed-ThreadOk x n e (pop_seq t) ok = ok
  claimed-ThreadOk x n e (pop_cas t) ok = ok
  claimed-ThreadOk x n e _ ok = tt

  claimed-CellOk :
      (x : A) (n : ℕ) (c : ℕ)
      → n ≡ q.tail + 1
      → ((cell_at q c).sequence % capacity ≡ (c + 1) % capacity
          → (cell_at q c).sequence + capacity ≢ n)
      → CellOk q log delivered c
      → CellOk (record q { tail = n }) (log ++ (x ∷ [])) delivered c
  unfolding cell_at
  claimed-CellOk x n c e ne (inl empty) = inl empty
  claimed-CellOk x n c e ne (inr (a, b, d, g, k, f)) = inr (
    a,
    b,
    omega arith,
    (let apart = ne a in omega arith),
    k,
    λ w. get_elem?-append_of_lt log (x ∷ []) _ (omega arith) ∙ f w,
  )

  -- The compare-exchange of `push` succeeds.
  pub push_cas-Inv :
      (x : A) (t : ℕ)
      → pc i ≡ push_cas x t
      → q.tail ≡ t
      → length (log ++ (x ∷ [])) < 2 ^ 62
      → Inv
          (record q { tail = add_size t 1 })
          (update pc i (push_data x t))
          (log ++ (x ∷ []))
          delivered
  push_cas-Inv x t e win small = record {
    slots = slots;
    ordered = omega arith;
    bounded = ground (arith, own, cells t, grown);
    logged = omega (arith, length-append log (x ∷ []));
    few = omega (arith, length-append log (x ∷ []));
    cells = λ c. claimed-CellOk x _ c grown (behind c) (cells c);
    threads = λ j. elim (ℕ_discrete i j) [
      | yes same ↦ rw (update_eq pc i j (push_data x t) same) new_thread
      | no ne ↦
          rw (update_ne pc i j (push_data x t) ne) (claimed-ThreadOk x _ grown (pc j) (threads j))
    ];
    push_unique = λ j k u p r. ground (arith, push_unique j k u, threads_lt j u, threads_lt k u);
    pop_unique = λ j k u p r. ground (arith, pop_unique j k u);
    push_covered = λ u lo hi. elim (ℕ_discrete t u) [
      | yes same ↦ inr (i, ground arith)
      | no other ↦ elim (push_covered u lo (omega arith)) [
        | inl done ↦ inl (claimed_cell u done)
        | inr (k, held) ↦ inr (k, ground arith)
      ]
    ];
    pop_covered = λ u lo. elim (pop_covered u lo) [
      | inl given ↦ inl (given ∙ sym (get_elem?-append_of_lt log (x ∷ []) u (omega arith)))
      | inr (k, held) ↦ inr (k, ground arith)
    ];
    undelivered = λ j u p. ground (arith, undelivered j u);
    in_order = in_order;
  }
    where
      own : ThreadOk q log (push_cas x t)
      own = rw e at (threads i)

      grown : add_size t 1 ≡ q.tail + 1
      grown = omega (arith, length-append log (x ∷ []))

      behind :
          (c : ℕ)
          → (cell_at q c).sequence % capacity ≡ (c + 1) % capacity
          → (cell_at q c).sequence + capacity ≢ add_size t 1
      behind c a w = ground (arith, own, cells c, cells t, cell_at_cong q c t)

      threads_lt : (j u : ℕ) → push_ticket (pc j) ≡ some u → u < q.tail
      threads_lt j u r = ticket_lt (pc j) u (threads j) r

      claimed_cell :
          (u : ℕ)
          → (cell_at q u).sequence ≡ u + 1
          → (cell_at (record q { tail = add_size t 1 }) u).sequence ≡ u + 1
      claimed_cell u h = cell_at_tail u (add_size t 1) ∙ h

      new_thread : ThreadOk (record q { tail = add_size t 1 }) (log ++ (x ∷ [])) (push_data x t)
      new_thread = (
        omega arith,
        cell_at_tail t (add_size t 1) ∙ own.1 (sym win),
        get_elem?-append_end log x t (omega arith),
      )
