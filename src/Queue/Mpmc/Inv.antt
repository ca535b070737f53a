-- ===== src/Queue/Mpmc/Inv.antt =====
-- The invariant of MPMCTaskQueue.hpp: which sequence number a slot may have, and who holds which
-- ticket. A ticket is a value of `tail`, or of `head`, that a thread has claimed.
use lumen_engine.Prelude.{
  ℕ, ◌+◌, ◌-◌, ◌%◌, ◌^◌, ◌≤◌, ◌<◌, ◌≡◌, ◌⊎◌, Option, none, some, List, get_elem?, length,
}
use lumen_engine.Queue.Interface.{Movable}
use lumen_engine.Queue.Mpmc.{
  capacity, MpmcTaskQueue, Pc, push_seq, push_cas, push_data, push_publish, pop_seq, pop_cas,
  pop_data, pop_release, cell_at,
}

abbrev pub push_ticket : {A : Type 0} → Pc A → Option ℕ
push_ticket (push_data x t) = some t
push_ticket (push_publish t) = some t
push_ticket _ = none

abbrev pub pop_ticket : {A : Type 0} → Pc A → Option ℕ
pop_ticket (pop_data h) = some h
pop_ticket (pop_release x h) = some h
pop_ticket _ = none

module _ {A : Type 0} ⦃m : Movable A⦄ (q : MpmcTaskQueue A) (log : List A) where
  -- The slot of position `c` waits for the push ticket in its sequence number, or is full.
  abbrev pub CellOk : (ℕ → Option A) → ℕ → Type 0
  CellOk delivered c =
      (((cell_at q c).sequence % capacity ≡ c % capacity)
        × (q.head ≤ (cell_at q c).sequence)
        × ((cell_at q c).sequence < q.head + capacity))
      ⊎ (((cell_at q c).sequence % capacity ≡ (c + 1) % capacity)
          × (1 ≤ (cell_at q c).sequence)
          × ((cell_at q c).sequence ≤ q.tail)
          × (q.tail < (cell_at q c).sequence + capacity)
          × ((cell_at q c).sequence ≤ q.head → delivered ((cell_at q c).sequence - 1) ≡ none)
          × (q.head < (cell_at q c).sequence
              → get_elem? log ((cell_at q c).sequence - 1) ≡ some (cell_at q c).value))

  -- What a thread's locals say of the shared state.
  abbrev pub ThreadOk : Pc A → Type 0
  ThreadOk (push_seq x t) = t ≤ q.tail
  ThreadOk (push_cas x t) = (t ≤ q.tail) × (t ≡ q.tail → (cell_at q t).sequence ≡ t)
  ThreadOk (push_data x t) =
      (t < q.tail) × ((cell_at q t).sequence ≡ t) × (get_elem? log t ≡ some x)
  ThreadOk (push_publish t) =
      (t < q.tail) × ((cell_at q t).sequence ≡ t) × (get_elem? log t ≡ some (cell_at q t).value)
  ThreadOk (pop_seq h) = h ≤ q.head
  ThreadOk (pop_cas h) = (h ≤ q.head) × (h ≡ q.head → (cell_at q h).sequence ≡ h + 1)
  ThreadOk (pop_data h) =
      (h < q.head) × ((cell_at q h).sequence ≡ h + 1) × (get_elem? log h ≡ some (cell_at q h).value)
  ThreadOk (pop_release x h) =
      (h < q.head) × ((cell_at q h).sequence ≡ h + 1) × (get_elem? log h ≡ some x)
  ThreadOk _ = Unit

module _ {A : Type 0} ⦃m : Movable A⦄ where
  -- A claimed push is published, or its thread is about to.
  abbrev pub PushCovered : MpmcTaskQueue A → (ℕ → Pc A) → ℕ → Type 0
  PushCovered q pc t = ((cell_at q t).sequence ≡ t + 1) ⊎ ((i : ℕ) × (push_ticket (pc i) ≡ some t))

  -- A claimed pop has delivered its task, or its thread is about to.
  abbrev pub PopCovered : (ℕ → Pc A) → List A → (ℕ → Option A) → ℕ → Type 0
  PopCovered pc log delivered h =
      (delivered h ≡ get_elem? log h) ⊎ ((i : ℕ) × (pop_ticket (pc i) ≡ some h))

  pub record Inv (q : MpmcTaskQueue A) (pc : ℕ → Pc A) (log : List A) (delivered : ℕ → Option A)
      : Type 0 where
    pub slots : length q.buffer ≡ capacity
    pub ordered : q.head ≤ q.tail
    pub bounded : q.tail ≤ q.head + capacity
    pub logged : length log ≡ q.tail
    pub few : q.tail < 2 ^ 62
    pub cells : (c : ℕ) → CellOk q log delivered c
    pub threads : (i : ℕ) → ThreadOk q log (pc i)
    pub push_unique :
        (i j t : ℕ) → push_ticket (pc i) ≡ some t → push_ticket (pc j) ≡ some t → i ≡ j
    pub pop_unique : (i j h : ℕ) → pop_ticket (pc i) ≡ some h → pop_ticket (pc j) ≡ some h → i ≡ j
    pub push_covered : (t : ℕ) → q.head ≤ t → t < q.tail → PushCovered q pc t
    pub pop_covered : (h : ℕ) → h < q.head → PopCovered pc log delivered h
    pub undelivered : (i h : ℕ) → pop_ticket (pc i) ≡ some h → delivered h ≡ none
    pub in_order : (h : ℕ) → q.head ≤ h → delivered h ≡ none
