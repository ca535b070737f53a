-- ===== src/Queue/Fifo.antt =====
-- What a task queue promises: a list of tasks, oldest first, under a policy that says which pushes
-- are taken and whether an empty queue keeps a consumer waiting.
use lumen_engine.Prelude.{
  ℕ, ◌≡◌, ap, subst, ◌∙◌, ◌⊎◌, inl, inr, Bool-cases, Bool, true, false, not, ◌&&◌, Option, none,
  some, List, [], ◌∷◌, ◌++◌, if◌then◌else◌, ◌==◌, length, take, drop, min,
}
use lumen_engine.Queue.Interface.{Blocking, blocked, returned, ITaskQueue}

pub record Policy : Type 0 where
  -- of the stop flag and the number of tasks held
  pub accepts : Bool → ℕ → Bool
  pub waits : Bool

pub record Fifo (A : Type 0) : Type 0 where
  pub items : List A
  pub stopped : Bool

module _ {A : Type 0} (p : Policy) where
  unfoldable pub push : A → Fifo A → Bool × Fifo A
  push x f =
      if p.accepts f.stopped (length f.items)
      then (true, record f { items = f.items ++ (x ∷ []) })
      else (false, f)

  pub push_taken :
      (x : A) (f : Fifo A)
      → p.accepts f.stopped (length f.items) ≡ true
      → push x f ≡ (true, record f { items = f.items ++ (x ∷ []) })
  unfolding push
  push_taken x f e = rw (push, e)

  pub push_denied :
      (x : A) (f : Fifo A) → p.accepts f.stopped (length f.items) ≡ false → push x f ≡ (false, f)
  unfolding push
  push_denied x f e = rw (push, e)

  unfoldable pub pop_items : List A → Bool → Blocking (Option A × Fifo A)
  pop_items [] stopped =
      if p.waits && not stopped
      then blocked
      else returned (none, record { items = []; stopped = stopped })
  pop_items (x ∷ xs) stopped = returned (some x, record { items = xs; stopped = stopped })

  unfoldable pub pop : Fifo A → Blocking (Option A × Fifo A)
  unfolding pop_items
  pop f = pop_items f.items f.stopped

  -- A batch takes as many of the oldest tasks as there are, up to `max`.
  unfoldable pub pop_batch : List A → ℕ → Fifo A → Blocking (ℕ × List A × Fifo A)
  pop_batch batch max f =
      if p.waits && not f.stopped && (length f.items == 0)
      then blocked
      else returned (
        min max (length f.items),
        batch ++ take max f.items,
        record f { items = drop max f.items },
      )

-- The outcome of a call on the queue, and of the same call on the specification.
module _ {A Q : Type 0} (R : Q → Fifo A → Type 0) where
  abbrev pub SamePop : Blocking (Option A × Q) → Blocking (Option A × Fifo A) → Type 0
  SamePop blocked blocked = Unit
  SamePop (returned (o, q)) (returned (o', f)) = (o ≡ o') × R q f
  SamePop _ _ = ⊥

  abbrev pub SameBatch : Blocking (ℕ × List A × Q) → Blocking (ℕ × List A × Fifo A) → Type 0
  SameBatch blocked blocked = Unit
  SameBatch (returned (n, b, q)) (returned (n', b', f)) = (n ≡ n') × (b ≡ b') × R q f
  SameBatch _ _ = ⊥

-- A class of queues keeps the promise under `p`.
pub record Implements {A : Type 0} (t : ITaskQueue A) (p : Policy) : Type 1 where
  pub Represents : t.Q → Fifo A → Type 0
  pub push_refines :
      (x : A) (q : t.Q) (f : Fifo A)
      → Represents q f
      → ((t.push x q).0 ≡ (push p x f).0) × Represents (t.push x q).1 (push p x f).1
  pub pop_refines : (q : t.Q) (f : Fifo A) → Represents q f → SamePop Represents (t.pop q) (pop p f)
  pub pop_batch_refines :
      (batch : List A) (max : ℕ) (q : t.Q) (f : Fifo A)
      → Represents q f
      → SameBatch Represents (t.pop_batch batch max q) (pop_batch p batch max f)
  pub size_refines : (q : t.Q) (f : Fifo A) → Represents q f → t.size q ≡ length f.items
  pub empty_refines : (q : t.Q) (f : Fifo A) → Represents q f → t.empty q ≡ (length f.items == 0)
  pub shutdown_refines :
      (q : t.Q) (f : Fifo A)
      → Represents q f
      → Represents (t.shutdown q) (record f { stopped = true })

module _ {A : Type 0} (t : ITaskQueue A) (p : Policy) (imp : Implements t p) where
  -- What becomes of a push: the queue has taken the element, or it is as it was.
  pub push-cases :
      (x : A) (q : t.Q) (f : Fifo A)
      → imp.Represents q f
      → (((t.push x q).0 ≡ true)
          × imp.Represents (t.push x q).1 (record f { items = f.items ++ (x ∷ []) }))
        ⊎ (((t.push x q).0 ≡ false) × imp.Represents (t.push x q).1 f)
  push-cases x q f h =
      let pushed = imp.push_refines x q f h in
      elim (Bool-cases (p.accepts f.stopped (length f.items))) [
        | inl accepts ↦
            let taken = push_taken p x f accepts in
            inl (
              pushed.0 ∙ ap (λ r. r.0) taken,
              subst (λ r. imp.Represents (t.push x q).1 r.1) taken pushed.1,
            )
        | inr refuses ↦
            let denied = push_denied p x f refuses in
            inr (
              pushed.0 ∙ ap (λ r. r.0) denied,
              subst (λ r. imp.Represents (t.push x q).1 r.1) denied pushed.1,
            )
      ]
