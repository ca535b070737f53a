-- ===== src/Queue/Mpmc.antt =====
-- include/lumen/concurrency/MPMCTaskQueue.hpp: the lock-free ring, one shared access at a time.
-- A thread that runs `push` or `pop` stands at a program point; `move` is its next access. The
-- atomics are taken as sequentially consistent.
pub mod System
pub mod Inv
pub mod Cells
pub mod Writes
pub mod Claims
pub mod Pops
pub mod Reach
pub mod Safety
pub mod Size
pub mod Alone
mod Tests
use lumen_engine.Prelude.{
  ℕ, zero, suc, ◌+◌, ◌-◌, ◌%◌, ◌^◌, Bool, true, false, not, ◌&&◌, Option, none, some, List, [], ◌∷◌,
  if◌then◌else◌, ltb, ◌==◌, get_or, set, add_size, sub_size, word,
}
use lumen_engine.Queue.Interface.{Movable}

abbrev pub capacity : ℕ
capacity = 1024

-- `x & Mask`, where `Mask` is `Capacity - 1`, ten one bits.
abbrev pub masked : ℕ → ℕ
masked x = x % capacity

pub record Cell (A : Type 0) : Type 0 where
  pub sequence : ℕ
  pub value : A

pub record MpmcTaskQueue (A : Type 0) : Type 0 where
  pub buffer : List (Cell A)
  pub head : ℕ
  pub tail : ℕ
  pub stop_flag : Bool

-- `(intptr_t)a - (intptr_t)b < 0`: the top bit is the sign, so the order is that of the words with
-- the top bit flipped.
abbrev pub diff_is_negative : ℕ → ℕ → Bool
diff_is_negative a b = ltb (add_size a (2 ^ 63)) (add_size b (2 ^ 63))

-- Where a thread stands, with its live locals: `task`, `t` or `h`.
pub data Pc (A : Type 0) : Type 0 where
  idle : Pc A
  push_stop : A → Pc A  -- before `stop_flag.load`
  push_load : A → Pc A  -- before `t = tail.load`
  push_seq : A → ℕ → Pc A  -- before `cell.sequence.load`
  push_cas : A → ℕ → Pc A  -- `diff == 0`: before the compare-exchange
  push_data : A → ℕ → Pc A  -- it succeeded: before `cell.data = task`
  push_publish : ℕ → Pc A  -- before `cell.sequence.store`
  push_done : Bool → Pc A
  pop_load : Pc A
  pop_seq : ℕ → Pc A
  pop_cas : ℕ → Pc A
  pop_data : ℕ → Pc A
  pop_release : A → ℕ → Pc A
  pop_done : Option A → Pc A

-- The constructor: slot `i` starts with the sequence number `i`.
pub cells_from : {A : Type 0} → A → (n i : ℕ) → List (Cell A)
cells_from d zero i = []
cells_from d (suc n) i = record { sequence = i; value = d } ∷ cells_from d n (i + 1)

module _ {A : Type 0} ⦃m : Movable A⦄ where
  pub new_queue : MpmcTaskQueue A
  unfolding cells_from
  new_queue = record {
    buffer = cells_from m.default_value capacity 0;
    head = 0;
    tail = 0;
    stop_flag = false;
  }

  -- `buffer[x & Mask]`
  pub cell_at : MpmcTaskQueue A → ℕ → Cell A
  cell_at q x = get_or q.buffer (masked x) (record { sequence = 0; value = m.default_value })

  pub write_cell : MpmcTaskQueue A → ℕ → Cell A → MpmcTaskQueue A
  write_cell q x c = record q { buffer = set q.buffer (masked x) c }

  -- The next access of a thread at `pc`; `spurious` says that a weak compare-exchange that could
  -- succeed fails. A failed one reloads its expected value.
  pub move : (spurious : Bool) → MpmcTaskQueue A → Pc A → MpmcTaskQueue A × Pc A
  unfolding cell_at write_cell
  move spurious q (push_stop x) = (q, if q.stop_flag then push_done false else push_load x)
  move spurious q (push_load x) = (q, push_seq x q.tail)
  move spurious q (push_seq x t) =
      let seq = (cell_at q t).sequence in
      (
        q,
        if seq == t
            then push_cas x t
            else if diff_is_negative seq t
            then push_done false
            else push_load x,
      )
  move spurious q (push_cas x t) =
      if q.tail == t && not spurious
      then (record q { tail = add_size t 1 }, push_data x t)
      else (q, push_seq x q.tail)
  move spurious q (push_data x t) =
      (write_cell q t (record (cell_at q t) { value = x }), push_publish t)
  move spurious q (push_publish t) =
      (write_cell q t (record (cell_at q t) { sequence = add_size t 1 }), push_done true)
  move spurious q pop_load = (q, pop_seq q.head)
  move spurious q (pop_seq h) =
      let seq = (cell_at q h).sequence in
      (
        q,
        if seq == add_size h 1
            then pop_cas h
            else if diff_is_negative seq (add_size h 1)
            then pop_done none
            else pop_load,
      )
  move spurious q (pop_cas h) =
      if q.head == h && not spurious
      then (record q { head = add_size h 1 }, pop_data h)
      else (q, pop_seq q.head)
  move spurious q (pop_data h) =
      let x = (cell_at q h).value in
      (write_cell q h (record (cell_at q h) { value = m.moved_from x }), pop_release x h)
  move spurious q (pop_release x h) =
      (write_cell q h (record (cell_at q h) { sequence = add_size h capacity }), pop_done (some x))
  move spurious q pc = (q, pc)

-- What `size` returns when it has loaded `t` from `tail`, and `h` from `head` some time later.
pub size_of : (t h : ℕ) → ℕ
size_of t h = if ltb h t then sub_size t h else 0

module _ {A : Type 0} where
  pub shutdown : MpmcTaskQueue A → MpmcTaskQueue A
  shutdown q = record q { stop_flag = true }
