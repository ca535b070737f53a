-- ===== src/Queue/Mpmc/Reach.antt =====
-- MPMCTaskQueue.hpp: the steps of the system, and the invariant.
use lumen_engine.Prelude.{
  ℕ, zero, suc, ◌+◌, ◌%◌, ◌^◌, ◌≤◌, ◌<◌, ◌≡◌, refl, ap, inl, inr, Bool, not, ◌&&◌, Option, none,
  List, [], ◌∷◌, get_or, length, length-append, ◌==◌, arith, Bool-cases,
}
use lumen_engine.Queue.Interface.{Movable}
use lumen_engine.Queue.Mpmc.{
  capacity, masked, Cell, MpmcTaskQueue, Pc, idle, push_stop, push_load, push_seq, push_cas,
  push_data, push_publish, push_done, pop_load, pop_seq, pop_cas, pop_data, pop_release, pop_done,
  cell_at, move, new_queue, cells_from, shutdown,
}
use lumen_engine.Queue.Mpmc.System.{
  System, update, log_claim, log_delivery, advance, Step, call_push, call_pop, access, return_push,
  return_pop, call_shutdown, Reach, start, later,
}
use lumen_engine.Queue.Mpmc.Inv.{CellOk, ThreadOk, Inv}
use lumen_engine.Queue.Mpmc.Claims.{local-Inv, push_cas-Inv}
use lumen_engine.Queue.Mpmc.Pops.{pop_cas-Inv}
use lumen_engine.Queue.Mpmc.Writes.{push_data-Inv, push_publish-Inv, pop_data-Inv, pop_release-Inv}

masked-lt : (c : ℕ) → masked c < capacity
masked-lt c = omega arith

first_lap :
    (c : ℕ) {n : ℕ} → n ≡ masked c → (n % capacity ≡ c % capacity) × (0 ≤ n) × (n < 0 + capacity)
first_lap c e = omega arith

module _ {A : Type 0} ⦃m : Movable A⦄ where
  module _ {q : MpmcTaskQueue A} {pc : ℕ → Pc A} {log : List A} {delivered : ℕ → Option A}
      (inv : Inv q pc log delivered) (i : ℕ) (spurious : Bool) where
    -- The invariant after thread `i` has moved from `p`.
    abbrev After : Pc A → Type 0
    After p =
        Inv (move spurious q p).0 (update pc i (move spurious q p).1)
          (log_claim p (move spurious q p).1 log) (log_delivery p delivered)

    push_claimed :
        (x : A) (t : ℕ)
        → pc i ≡ push_cas x t
        → length (log_claim (push_cas x t) (move spurious q (push_cas x t)).1 log) < 2 ^ 62
        → After (push_cas x t)
    unfolding move
    push_claimed x t e small = elim (Bool-cases (q.tail == t && not spurious)) [
      | inl win ↦ rw win (push_cas-Inv inv i x t e (ground arith) (rw win at small))
      | inr lost ↦ rw lost (
          local-Inv inv i (push_seq x q.tail) (ground arith) (ground arith) refl refl (omega arith))
    ]

    pop_claimed : (h : ℕ) → pc i ≡ pop_cas h → After (pop_cas h)
    unfolding move
    pop_claimed h e = elim (Bool-cases (q.head == h && not spurious)) [
      | inl win ↦ rw win (pop_cas-Inv inv i h e (ground arith))
      | inr lost ↦
          rw lost
            (local-Inv inv i (pop_seq q.head) (ground arith) (ground arith) refl refl (omega arith))
    ]

    after :
        (p : Pc A) → pc i ≡ p → length (log_claim p (move spurious q p).1 log) < 2 ^ 62 → After p
    unfolding move
    after idle e small = local-Inv inv i idle (ground arith) (ground arith) refl refl tt
    after (push_stop x) e small =
        local-Inv inv i _ (ground arith) (ground arith) (ground arith) (ground arith) (ground arith)
    after (push_load x) e small =
        local-Inv inv i (push_seq x q.tail) (ground arith) (ground arith) refl refl (omega arith)
    after (push_seq x t) e small =
        local-Inv inv i _ (ground arith) (ground arith) (ground arith) (ground arith)
          (ground (arith, inv.threads i))
    after (push_cas x t) e small = push_claimed x t e small
    after (push_data x t) e small = push_data-Inv inv i x t e
    after (push_publish t) e small = push_publish-Inv inv i t e
    after (push_done b) e small =
        local-Inv inv i (push_done b) (ground arith) (ground arith) refl refl tt
    after pop_load e small =
        local-Inv inv i (pop_seq q.head) (ground arith) (ground arith) refl refl (omega arith)
    after (pop_seq h) e small =
        local-Inv inv i _ (ground arith) (ground arith) (ground arith) (ground arith)
          (ground (arith, inv.threads i, inv.few, inv.ordered))
    after (pop_cas h) e small = pop_claimed h e
    after (pop_data h) e small = pop_data-Inv inv i h e
    after (pop_release x h) e small = pop_release-Inv inv i x h e
    after (pop_done o) e small =
        local-Inv inv i (pop_done o) (ground arith) (ground arith) refl refl tt

  shutdown-ThreadOk :
      (q : MpmcTaskQueue A) (log : List A) (p : Pc A)
      → ThreadOk q log p
      → ThreadOk (shutdown q) log p
  unfolding shutdown cell_at
  shutdown-ThreadOk q log (push_seq x t) ok = ok
  shutdown-ThreadOk q log (push_cas x t) ok = ok
  shutdown-ThreadOk q log (push_data x t) ok = ok
  shutdown-ThreadOk q log (push_publish t) ok = ok
  shutdown-ThreadOk q log (pop_seq h) ok = ok
  shutdown-ThreadOk q log (pop_cas h) ok = ok
  shutdown-ThreadOk q log (pop_data h) ok = ok
  shutdown-ThreadOk q log (pop_release x h) ok = ok
  shutdown-ThreadOk q log _ ok = tt

  shutdown-Inv :
      {q : MpmcTaskQueue A} {pc : ℕ → Pc A} {log : List A} {delivered : ℕ → Option A}
      → Inv q pc log delivered
      → Inv (shutdown q) pc log delivered
  unfolding shutdown cell_at
  shutdown-Inv {q} {pc} {log} inv = record {
    slots = inv.slots;
    ordered = inv.ordered;
    bounded = inv.bounded;
    logged = inv.logged;
    few = inv.few;
    cells = inv.cells;
    threads = λ i. shutdown-ThreadOk q log (pc i) (inv.threads i);
    push_unique = inv.push_unique;
    pop_unique = inv.pop_unique;
    push_covered = inv.push_covered;
    pop_covered = inv.pop_covered;
    undelivered = inv.undelivered;
    in_order = inv.in_order;
  }

  cells_from-get :
      (d : A) (e : Cell A) (n i k : ℕ) → k < n → (get_or (cells_from d n i) k e).sequence ≡ i + k
  unfolding cells_from
  cells_from-get d e zero i k h = elim h [ ]
  cells_from-get d e (suc n) i zero h = omega arith
  cells_from-get d e (suc n) i (suc k) h =
      omega (arith, cells_from-get d e n (i + 1) k (omega arith))

  pub length-cells_from : (d : A) (n i : ℕ) → length (cells_from d n i) ≡ n
  unfolding cells_from
  length-cells_from d zero i = refl
  length-cells_from d (suc n) i = ap suc (length-cells_from d n (i + 1))

  pub cells_from-get_zero :
      (d : A) (e : Cell A) (n k : ℕ) → k < n → (get_or (cells_from d n 0) k e).sequence ≡ k
  cells_from-get_zero d e n k h = omega (arith, cells_from-get d e n 0 k h)

  new_cells : (c : ℕ) → CellOk {A = A} new_queue [] (λ _. none) c
  unfolding new_queue cell_at
  new_cells c =
      inl (first_lap c (cells_from-get_zero m.default_value _ capacity (masked c) (masked-lt c)))

  init-Inv : Inv {A = A} new_queue (λ _. idle) [] (λ _. none)
  unfolding new_queue
  init-Inv = record {
    slots = length-cells_from m.default_value capacity 0;
    ordered = omega arith;
    bounded = omega arith;
    logged = refl;
    few = omega arith;
    cells = new_cells;
    threads = λ _. tt;
    push_unique = λ i j t p r. cc;
    pop_unique = λ i j h p r. cc;
    push_covered = λ t lo hi. absurd (omega arith);
    pop_covered = λ h lo. absurd (omega arith);
    undelivered = λ i h p. refl;
    in_order = λ h lo. refl;
  }

  Step-Inv :
      {s t : System A}
      → Step s t
      → length t.log < 2 ^ 62
      → Inv s.queue s.pc s.log s.delivered
      → Inv t.queue t.pc t.log t.delivered
  unfolding advance
  Step-Inv (call_push i x e) small inv =
      local-Inv inv i (push_stop x) (ground arith) (ground arith) refl refl tt
  Step-Inv (call_pop i e) small inv =
      local-Inv inv i pop_load (ground arith) (ground arith) refl refl tt
  Step-Inv {s} (access i spurious) small inv = after inv i spurious (s.pc i) refl small
  Step-Inv (return_push i b e) small inv =
      local-Inv inv i idle (ground arith) (ground arith) refl refl tt
  Step-Inv (return_pop i o e) small inv =
      local-Inv inv i idle (ground arith) (ground arith) refl refl tt
  Step-Inv call_shutdown small inv = shutdown-Inv inv

  claim-grows : (p p' : Pc A) (log : List A) → length log ≤ length (log_claim p p' log)
  claim-grows (push_cas x t) (push_data y u) log = omega (arith, length-append log (x ∷ []))
  claim-grows _ _ log = omega arith

  log-grows : {s t : System A} → Step s t → length s.log ≤ length t.log
  unfolding advance
  log-grows (call_push i x e) = omega arith
  log-grows (call_pop i e) = omega arith
  log-grows {s} (access i spurious) = claim-grows (s.pc i) _ s.log
  log-grows (return_push i b e) = omega arith
  log-grows (return_pop i o e) = omega arith
  log-grows call_shutdown = omega arith

  -- The invariant holds in every state that any number of threads reach in any interleaving, with
  -- fewer than 2^62 pushes.
  pub Reach-Inv :
      {s : System A} → Reach s → length s.log < 2 ^ 62 → Inv s.queue s.pc s.log s.delivered
  Reach-Inv start small = init-Inv
  Reach-Inv (later r st) small = Step-Inv st small (Reach-Inv r (omega (arith, log-grows st)))
