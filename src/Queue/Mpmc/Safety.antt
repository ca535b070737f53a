-- ===== src/Queue/Mpmc/Safety.antt =====
-- MPMCTaskQueue.hpp: its reachable states.
use lumen_engine.Prelude.{
  ℕ, ◌+◌, ◌^◌, ◌≤◌, ◌<◌, ◌≡◌, refl, sym, ◌∙◌, ◌⊎◌, inl, inr, Option, none, some, get_elem?, length,
  arith, dec_lt,
}
use lumen_engine.Queue.Interface.{Movable}
use lumen_engine.Queue.Mpmc.{masked, Pc, idle, push_data, pop_data, pop_release, cell_at}
use lumen_engine.Queue.Mpmc.System.{System, Reach}
use lumen_engine.Queue.Mpmc.Inv.{pop_ticket, Inv}
use lumen_engine.Queue.Mpmc.Cells.{cell_at_cong}
use lumen_engine.Queue.Mpmc.Reach.{Reach-Inv}

-- The slot whose task a thread is about to write or to move out, if any.
abbrev pub data_slot : {A : Type 0} → Pc A → Option ℕ
data_slot (push_data x t) = some (masked t)
data_slot (pop_data h) = some (masked h)
data_slot _ = none

module _ {A : Type 0} ⦃m : Movable A⦄ where
  -- In every state that any interleaving reaches with fewer than 2^62 pushes claimed: two threads
  -- that are each about to access the task of the same slot, by a write or by a move, are one
  -- thread. These accesses are the only ones that are not atomic.
  pub no_data_race :
      {s : System A}
      → Reach s
      → length s.log < 2 ^ 62
      → (i j c : ℕ) → data_slot (s.pc i) ≡ some c
      → data_slot (s.pc j) ≡ some c
      → i ≡ j
  no_data_race {s} r small i j c p w =
      slots_apart (Reach-Inv r small) i j c (s.pc i) refl p (s.pc j) refl w
    where
      slots_apart :
          Inv s.queue s.pc s.log s.delivered
          → (i j c : ℕ) (p : Pc A) → s.pc i ≡ p
          → data_slot p ≡ some c
          → (p' : Pc A) → s.pc j ≡ p'
          → data_slot p' ≡ some c
          → i ≡ j
      slots_apart inv i j c (push_data x t) e a (push_data y u) e' b =
          ground
            (arith, inv.threads i, inv.threads j, cell_at_cong s.queue t u, inv.push_unique i j t)
      slots_apart inv i j c (push_data x t) e a (pop_data h) e' b =
          ground (arith, inv.threads i, inv.threads j, cell_at_cong s.queue t h)
      slots_apart inv i j c (pop_data h) e a (push_data x t) e' b =
          ground (arith, inv.threads i, inv.threads j, cell_at_cong s.queue t h)
      slots_apart inv i j c (pop_data h) e a (pop_data k) e' b =
          ground
            (arith, inv.threads i, inv.threads j, cell_at_cong s.queue h k, inv.pop_unique i j h)
      slots_apart inv i j c (push_data x t) e a _ e' b = ground arith
      slots_apart inv i j c (pop_data h) e a _ e' b = ground arith
      slots_apart inv i j c _ e a p' e' b = ground arith

  -- In every state that any interleaving reaches with fewer than 2^62 pushes claimed: a thread
  -- that is about to finish a `pop` with ticket `h` holds the task for which the `h`-th push was
  -- claimed; nothing has been delivered for the ticket; and whichever thread holds the ticket is
  -- this one.
  pub pop_release-log :
      {s : System A}
      → Reach s
      → length s.log < 2 ^ 62
      → (i j : ℕ) (x : A) (h : ℕ) → s.pc i ≡ pop_release x h
      → pop_ticket (s.pc j) ≡ some h
      → (get_elem? s.log h ≡ some x) × (s.delivered h ≡ none) × (i ≡ j)
  pop_release-log {s} r small i j x h e w =
      let inv = Reach-Inv r small in
      (
        ground (arith, inv.threads i),
        ground (arith, inv.undelivered i h),
        inv.pop_unique i j h (ground arith) w,
      )

  -- In every state that any interleaving reaches with fewer than 2^62 pushes claimed: whatever has
  -- been delivered for a ticket of `head` is the task for which the same ticket of `tail` was
  -- claimed, and the ticket is below `head`.
  pub delivered_sound :
      {s : System A}
      → Reach s
      → length s.log < 2 ^ 62
      → (h : ℕ) (x : A) → s.delivered h ≡ some x
      → (get_elem? s.log h ≡ some x) × (h < s.queue.head)
  delivered_sound {s} r small h x e = elim (dec_lt h s.queue.head) [
    | yes popped ↦ elim (inv.pop_covered h popped) [
      | inl given ↦ (sym given ∙ e, popped)
      | inr (i, held) ↦ ground (arith, inv.undelivered i h)
    ]
    | no fresh ↦ ground (arith, inv.in_order h)
  ]
    where
      inv : Inv s.queue s.pc s.log s.delivered
      inv = Reach-Inv r small

  -- In every state that any interleaving reaches with fewer than 2^62 pushes claimed: each ticket
  -- below `head` has delivered the task for which the same ticket of `tail` was claimed, or some
  -- thread holds it.
  pub delivered_complete :
      {s : System A}
      → Reach s
      → length s.log < 2 ^ 62
      → (h : ℕ) → h < s.queue.head
      → (s.delivered h ≡ get_elem? s.log h) ⊎ ((i : ℕ) × (pop_ticket (s.pc i) ≡ some h))
  delivered_complete r small h = (Reach-Inv r small).pop_covered h

  -- In every state that any interleaving reaches with fewer than 2^62 pushes claimed, and in which
  -- every thread is between calls: for each ticket below `head` its task has been delivered.
  pub quiescent_delivered :
      {s : System A}
      → Reach s
      → length s.log < 2 ^ 62
      → ((i : ℕ) → s.pc i ≡ idle)
      → (h : ℕ) → h < s.queue.head
      → s.delivered h ≡ get_elem? s.log h
  quiescent_delivered {s} r small quiet h lt = elim (delivered_complete r small h lt) [
    | inl given ↦ given
    | inr (i, held) ↦ ground (arith, quiet i)
  ]

  -- In every state that any interleaving reaches with fewer than 2^62 pushes claimed, and in which
  -- every thread is between calls: each pushed task whose ticket is not below `head` lies in the
  -- slot of its ticket, marked full, and has not been delivered.
  pub quiescent_held :
      {s : System A}
      → Reach s
      → length s.log < 2 ^ 62
      → ((i : ℕ) → s.pc i ≡ idle)
      → (t : ℕ) → s.queue.head ≤ t
      → t < length s.log
      → ((cell_at s.queue t).sequence ≡ t + 1)
        × (get_elem? s.log t ≡ some (cell_at s.queue t).value)
        × (s.delivered t ≡ none)
  quiescent_held {s} r small quiet t lo hi =
      elim (inv.push_covered t lo (omega (arith, inv.logged))) [
        | inl done ↦ (done, ground (arith, inv.cells t), inv.in_order t lo)
        | inr (i, held) ↦ ground (arith, quiet i)
      ]
    where
      inv : Inv s.queue s.pc s.log s.delivered
      inv = Reach-Inv r small
