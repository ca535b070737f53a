-- ===== src/Queue/Client.antt =====
-- A client's calls on a task queue, one after another, and what it sees of each.
use lumen_engine.Prelude.{ℕ, ◌≡◌, refl, ap, ap₂, Bool, true, Option, List, [], ◌∷◌, length, ◌==◌}
use lumen_engine.Queue.Interface.{Blocking, blocked, returned, ITaskQueue}
use lumen_engine.Queue.Fifo
use lumen_engine.Queue.Fifo.{Policy, Fifo, SamePop, SameBatch, Implements}

pub data Call (A : Type 0) : Type 0 where
  push : A → Call A
  pop : Call A
  pop_batch : List A → ℕ → Call A
  size : Call A
  empty : Call A
  shutdown : Call A

pub data Reply (A : Type 0) : Type 0 where
  pushed : Bool → Reply A
  popped : Option A → Reply A
  batched : ℕ → List A → Reply A
  sized : ℕ → Reply A
  emptied : Bool → Reply A
  done : Reply A
  waiting : Reply A  -- the call did not return, and nothing after it is made

module _ {A : Type 0} (t : ITaskQueue A) where
  unfoldable pub run : t.Q → List (Call A) → List (Reply A)
  run q [] = []
  run q (Call.push x ∷ calls) = pushed (t.push x q).0 ∷ run (t.push x q).1 calls
  run q (Call.pop ∷ calls) = elim (t.pop q) [
    | blocked ↦ waiting ∷ []
    | returned (o, q') ↦ popped o ∷ run q' calls
  ]
  run q (Call.pop_batch batch max ∷ calls) = elim (t.pop_batch batch max q) [
    | blocked ↦ waiting ∷ []
    | returned (n, b, q') ↦ batched n b ∷ run q' calls
  ]
  run q (Call.size ∷ calls) = sized (t.size q) ∷ run q calls
  run q (Call.empty ∷ calls) = emptied (t.empty q) ∷ run q calls
  run q (Call.shutdown ∷ calls) = done ∷ run (t.shutdown q) calls

-- The specification is itself an `ITaskQueue`.
abbrev pub fifo_task_queue : (A : Type 0) → Policy → ITaskQueue A
fifo_task_queue A p = record {
  Q = Fifo A;
  push = Fifo.push p;
  pop = Fifo.pop p;
  pop_batch = Fifo.pop_batch p;
  size = λ f. length f.items;
  empty = λ f. length f.items == 0;
  shutdown = λ f. record f { stopped = true };
}

module _ {A Q : Type 0} (R : Q → Fifo A → Type 0) (k : Q → List (Reply A))
    (k' : Fifo A → List (Reply A)) (same : (q : Q) (f : Fifo A) → R q f → k q ≡ k' f) where
  pub after_pop :
      (b : Blocking (Option A × Q)) (b' : Blocking (Option A × Fifo A))
      → SamePop R b b'
      → ◌≡◌ {A = List (Reply A)}
          (elim b [ blocked ↦ waiting ∷ [] | returned (o, q) ↦ popped o ∷ k q ])
          (elim b' [ blocked ↦ waiting ∷ [] | returned (o, f) ↦ popped o ∷ k' f ])
  after_pop blocked blocked h = refl
  after_pop blocked (returned p) h = absurd h
  after_pop (returned p) blocked h = absurd h
  after_pop (returned (o, q)) (returned (o', f)) h = ap₂ (λ o r. popped o ∷ r) h.0 (same q f h.1)

  pub after_batch :
      (b : Blocking (ℕ × List A × Q)) (b' : Blocking (ℕ × List A × Fifo A))
      → SameBatch R b b'
      → ◌≡◌ {A = List (Reply A)}
          (elim b [ blocked ↦ waiting ∷ [] | returned (n, l, q) ↦ batched n l ∷ k q ])
          (elim b' [ blocked ↦ waiting ∷ [] | returned (n, l, f) ↦ batched n l ∷ k' f ])
  after_batch blocked blocked h = refl
  after_batch blocked (returned p) h = absurd h
  after_batch (returned p) blocked h = absurd h
  after_batch (returned (n, l, q)) (returned (n', l', f)) h =
      ap₂ ◌∷◌ (ap₂ batched h.0 h.1) (same q f h.2)

module _ {A : Type 0} {t : ITaskQueue A} {p : Policy} (i : Implements t p) where
  -- A client of a class that keeps its promise sees, call by call, what it would see of the
  -- specification.
  pub run_refines :
      (calls : List (Call A)) (q : t.Q) (f : Fifo A)
      → i.Represents q f
      → run t q calls ≡ run (fifo_task_queue A p) f calls
  unfolding run
  run_refines [] q f h = refl
  run_refines (Call.push x ∷ calls) q f h =
      let (same, h') = i.push_refines x q f h in
      ap₂ (λ b r. pushed b ∷ r) same (run_refines calls _ _ h')
  run_refines (Call.pop ∷ calls) q f h =
      after_pop i.Represents _ _ (run_refines calls) _ _ (i.pop_refines q f h)
  run_refines (Call.pop_batch batch max ∷ calls) q f h =
      after_batch i.Represents _ _ (run_refines calls) _ _ (i.pop_batch_refines batch max q f h)
  run_refines (Call.size ∷ calls) q f h =
      ap₂ (λ n r. sized n ∷ r) (i.size_refines q f h) (run_refines calls q f h)
  run_refines (Call.empty ∷ calls) q f h =
      ap₂ (λ b r. emptied b ∷ r) (i.empty_refines q f h) (run_refines calls q f h)
  run_refines (Call.shutdown ∷ calls) q f h =
      ap (λ r. done ∷ r) (run_refines calls _ _ (i.shutdown_refines q f h))
