-- ===== src/Queue/Mpmc/Size.antt =====
-- `size` of MPMCTaskQueue.hpp: two loads, with any accesses of the other threads between them.
use lumen_engine.Prelude.{◌+◌, ◌^◌, ◌≤◌, ◌<◌, Bool, List, [], ◌∷◌, length, length-append, arith}
use lumen_engine.Queue.Interface.{Movable}
use lumen_engine.Queue.Mpmc.{
  capacity, MpmcTaskQueue, Pc, push_cas, push_data, pop_cas, move, shutdown, size_of,
}
use lumen_engine.Queue.Mpmc.System.{
  System, Step, call_push, call_pop, access, return_push, return_pop, call_shutdown, Reach, later,
  advance, log_claim,
}
use lumen_engine.Queue.Mpmc.Reach.{Reach-Inv}

module _ {A : Type 0} ⦃m : Movable A⦄ where
  -- What the threads do between two loads.
  pub data Between (s : System A) : System A → Type 0 where
    at_once : Between s s
    then_step : {t u : System A} → Between s t → Step t u → Between s u

  Between-Reach : {s t : System A} → Reach s → Between s t → Reach t
  Between-Reach r at_once = r
  Between-Reach r (then_step b step) = later (Between-Reach r b) step

  log_claim-length : (p p' : Pc A) (log : List A) → length log ≤ length (log_claim p p' log)
  log_claim-length (push_cas x t) (push_data y u) log = omega (arith, length-append log (x ∷ []))
  log_claim-length _ _ log = omega arith

  Step-length : {s t : System A} → Step s t → length s.log ≤ length t.log
  unfolding advance
  Step-length (call_push i x e) = omega arith
  Step-length (call_pop i e) = omega arith
  Step-length {s} (access i spurious) =
      log_claim-length (s.pc i) (move spurious s.queue (s.pc i)).1 s.log
  Step-length (return_push i b e) = omega arith
  Step-length (return_pop i o e) = omega arith
  Step-length call_shutdown = omega arith

  move-head :
      (spurious : Bool) (q : MpmcTaskQueue A) (p : Pc A)
      → q.head < 2 ^ 62
      → q.head ≤ (move spurious q p).0.head
  unfolding move
  move-head spurious q (pop_cas h) small = ground arith
  move-head spurious q _ small = ground arith

  Step-head : {s t : System A} → Step s t → s.queue.head < 2 ^ 62 → s.queue.head ≤ t.queue.head
  unfolding advance shutdown
  Step-head (call_push i x e) small = omega arith
  Step-head (call_pop i e) small = omega arith
  Step-head {s} (access i spurious) small = move-head spurious s.queue (s.pc i) small
  Step-head (return_push i b e) small = omega arith
  Step-head (return_pop i o e) small = omega arith
  Step-head call_shutdown small = omega arith

  Between-grows :
      {s t : System A}
      → Reach s
      → Between s t
      → length t.log < 2 ^ 62
      → (length s.log ≤ length t.log) × (s.queue.head ≤ t.queue.head)
  Between-grows r at_once small = (omega arith, omega arith)
  Between-grows r (then_step b step) small =
      let grown = Step-length step in
      let ih = Between-grows r b (omega (arith, grown)) in
      let inv = Reach-Inv (Between-Reach r b) (omega (arith, grown)) in
      let head = Step-head step (omega (arith, inv.ordered, inv.logged, grown)) in
      (omega (arith, ih.0, grown), omega (arith, ih.1, head))

  -- `size` loads `tail` in one state that any interleaving reaches, and `head` in a later one, with
  -- fewer than 2^62 pushes claimed by then. What it returns is at most the number of pushes claimed
  -- less that of pops claimed, both at the first load and at the second; it is at most 1024; and it
  -- is at least the pushes claimed at the first load less the pops claimed at the second. So without
  -- accesses of others in between it is exact.
  pub size_lem :
      {s t : System A}
      → Reach s
      → Between s t
      → length t.log < 2 ^ 62
      → let n = size_of s.queue.tail t.queue.head in
        (n + s.queue.head ≤ length s.log)
        × (n + t.queue.head ≤ length t.log)
        × (n ≤ capacity)
        × (length s.log ≤ n + t.queue.head)
  unfolding size_of
  size_lem {s} {t} r b small =
      let grown = Between-grows r b small in
      let first = Reach-Inv r (omega (arith, grown.0)) in
      let second = Reach-Inv (Between-Reach r b) small in
      (
        ground (arith, first.logged, first.ordered, grown.1),
        ground (arith, first.logged, second.logged, second.ordered, grown.0, grown.1),
        ground (arith, first.logged, first.ordered, first.bounded, first.few, grown.1),
        ground (arith, first.logged, first.ordered, first.bounded, first.few, grown.1),
      )
