-- ===== src/Queue/Mpmc/Alone.antt =====
-- MPMCTaskQueue.hpp: calls whose accesses are not interrupted, `pop_batch` among them, and no weak
-- compare-exchange fails that could succeed.
pub mod Ring
pub mod Steps
pub mod Contract
mod Tests
use lumen_engine.Prelude.{
  ℕ, zero, suc, ◌+◌, Bool, true, false, Option, none, some, List, [], ◌∷◌, ◌++◌, ◌==◌,
}
use lumen_engine.Queue.Interface.{Movable}
use lumen_engine.Queue.Client.{Call, Reply, batched, sized, emptied, done}
use lumen_engine.Queue.Client
use lumen_engine.Queue.Mpmc.{
  MpmcTaskQueue, Pc, push_stop, push_done, pop_load, pop_done, move, size_of, shutdown,
}

-- One reply in front of the others.
abbrev pub reply : {A : Type 0} → Reply A → Option (List (Reply A)) → Option (List (Reply A))
reply r none = none
reply r (some replies) = some (r ∷ replies)

module _ {A : Type 0} ⦃m : Movable A⦄ where
  -- `n` accesses of one thread in a row; a call that has ended stays as it is.
  pub moves : ℕ → MpmcTaskQueue A → Pc A → MpmcTaskQueue A × Pc A
  moves zero q pc = (q, pc)
  moves (suc n) q pc = moves n (move false q pc).0 (move false q pc).1

  -- Whether a push has been taken, and what a pop has returned; `none`: the call has not ended.
  abbrev pub pushed : MpmcTaskQueue A × Pc A → Option (Bool × MpmcTaskQueue A)
  pushed (q, push_done b) = some (b, q)
  pushed (q, _) = none

  abbrev pub popped : MpmcTaskQueue A × Pc A → Option (Option A × MpmcTaskQueue A)
  popped (q, pop_done o) = some (o, q)
  popped (q, _) = none

  -- Six accesses, and five, are those of a call that is not interrupted.
  unfoldable pub push : A → MpmcTaskQueue A → Option (Bool × MpmcTaskQueue A)
  push x q = pushed (moves 6 q (push_stop x))

  unfoldable pub pop : MpmcTaskQueue A → Option (Option A × MpmcTaskQueue A)
  pop q = popped (moves 5 q pop_load)

  -- The loop of `pop_batch`, with `rounds` equal to `max - count`.
  unfoldable pub pop_batch_loop :
      (rounds count : ℕ) (batch : List A) → MpmcTaskQueue A → Option (ℕ × List A × MpmcTaskQueue A)
  pop_batch_loop zero count batch q = some (count, batch, q)
  pop_batch_loop (suc rounds) count batch q = elim (pop q) [
    | none ↦ none
    | some (none, q') ↦ some (count, batch, q')
    | some (some x, q') ↦ pop_batch_loop rounds (count + 1) (batch ++ (x ∷ [])) q'
  ]

  unfoldable pub pop_batch : List A → ℕ → MpmcTaskQueue A → Option (ℕ × List A × MpmcTaskQueue A)
  pop_batch batch max q = pop_batch_loop max 0 batch q

  -- With no accesses of others, the two loads of `size` are of one state.
  abbrev pub size : MpmcTaskQueue A → ℕ
  size q = size_of q.tail q.head

  abbrev pub empty : MpmcTaskQueue A → Bool
  empty q = size q == 0

  -- A client's calls one after another; `none`: one of them has not ended.
  unfoldable pub run_calls : MpmcTaskQueue A → List (Call A) → Option (List (Reply A))
  run_calls q [] = some []
  run_calls q (Call.push x ∷ calls) = elim (push x q) [
    | none ↦ none
    | some (b, q') ↦ reply (Client.pushed b) (run_calls q' calls)
  ]
  run_calls q (Call.pop ∷ calls) = elim (pop q) [
    | none ↦ none
    | some (o, q') ↦ reply (Client.popped o) (run_calls q' calls)
  ]
  run_calls q (Call.pop_batch batch max ∷ calls) = elim (pop_batch batch max q) [
    | none ↦ none
    | some (n, b, q') ↦ reply (batched n b) (run_calls q' calls)
  ]
  run_calls q (Call.size ∷ calls) = reply (sized (size q)) (run_calls q calls)
  run_calls q (Call.empty ∷ calls) = reply (emptied (empty q)) (run_calls q calls)
  run_calls q (Call.shutdown ∷ calls) = reply done (run_calls (shutdown q) calls)
