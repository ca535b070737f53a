-- ===== src/Queue/Mpmc/Alone/Ring.antt =====
-- MPMCTaskQueue.hpp: one call after another on a ring that holds some tasks.
use lumen_engine.Prelude.{
  ℕ, ◌+◌, ◌≤◌, ◌<◌, ◌≡◌, ◌≢◌, refl, sym, ap, ◌∙◌, true, false, none, some, List, length, get_elem?,
  length-set, if◌then◌else◌, ◌==◌, ==_iff, add_size, Bool-cases, inl, inr,
}
use lumen_engine.Queue.Interface.{Movable}
use lumen_engine.Queue.Mpmc.{
  capacity, masked, Cell, MpmcTaskQueue, move, cell_at, write_cell, diff_is_negative,
}
use lumen_engine.Queue.Mpmc.Cells.{cell_at-write_cell}
use lumen_engine.Queue.Mpmc.Alone.{moves, push, pop}

module _ {A : Type 0} ⦃m : Movable A⦄ where
  -- The ring holds the tasks `xs`, oldest first, after `start` pops.
  pub record Rings (q : MpmcTaskQueue A) (start : ℕ) (xs : List A) : Type 0 where
    pub slots : length q.buffer ≡ capacity
    pub head_at : q.head ≡ start
    pub tail_at : q.tail ≡ start + length xs
    pub fits : length xs ≤ capacity
    pub held :
        (i : ℕ)
        → i < length xs
        → ((cell_at q (start + i)).sequence ≡ start + i + 1)
          × (get_elem? xs i ≡ some (cell_at q (start + i)).value)
    pub free : (i : ℕ) → length xs ≤ i → i < capacity → (cell_at q (start + i)).sequence ≡ start + i

  -- The ring after a push, and after a pop.
  abbrev pub after_push : A → MpmcTaskQueue A → MpmcTaskQueue A
  after_push x q =
      let t = q.tail in
      let claimed = record q { tail = add_size t 1 } in
      let filled = write_cell claimed t (record (cell_at claimed t) { value = x }) in
      write_cell filled t (record (cell_at filled t) { sequence = add_size t 1 })

  abbrev pub after_pop : MpmcTaskQueue A → MpmcTaskQueue A
  after_pop q =
      let h = q.head in
      let claimed = record q { head = add_size h 1 } in
      let emptied =
        write_cell claimed h
          (record (cell_at claimed h) { value = m.moved_from (cell_at claimed h).value }) in
      write_cell emptied h (record (cell_at emptied h) { sequence = add_size h capacity })

  pub push_goes :
      (x : A) (q : MpmcTaskQueue A)
      → q.stop_flag ≡ false
      → ((cell_at q q.tail).sequence == q.tail) ≡ true
      → push x q ≡ some (true, after_push x q)
  unfolding push moves move
  push_goes x q running waits = rw running (rw waits (rw ((==_iff q.tail q.tail).1 refl) refl))

  pub push_full :
      (x : A) (q : MpmcTaskQueue A)
      → q.stop_flag ≡ false
      → ((cell_at q q.tail).sequence == q.tail) ≡ false
      → diff_is_negative (cell_at q q.tail).sequence q.tail ≡ true
      → push x q ≡ some (false, q)
  unfolding push moves move
  push_full x q running taken negative = rw running (rw taken (rw negative refl))

  pub push_stopped : (x : A) (q : MpmcTaskQueue A) → q.stop_flag ≡ true → push x q ≡ some (false, q)
  unfolding push moves move
  push_stopped x q stopped = rw stopped refl

  pub pop_goes :
      (q : MpmcTaskQueue A)
      → ((cell_at q q.head).sequence == add_size q.head 1) ≡ true
      → pop q ≡ some (some (cell_at q q.head).value, after_pop q)
  unfolding pop moves move cell_at
  pop_goes q full = rw full (rw ((==_iff q.head q.head).1 refl) refl)

  pub pop_nothing :
      (q : MpmcTaskQueue A)
      → ((cell_at q q.head).sequence == add_size q.head 1) ≡ false
      → diff_is_negative (cell_at q q.head).sequence (add_size q.head 1) ≡ true
      → pop q ≡ some (none, q)
  unfolding pop moves move
  pop_nothing q waits negative = rw waits (rw negative refl)

  -- Two writes of the slot of one position, the second of them of `c`.
  twice :
      (q : MpmcTaskQueue A) (t y : ℕ) (b c : Cell A)
      → length q.buffer ≡ capacity
      → cell_at (write_cell (write_cell q t b) t c) y
        ≡ (if masked t == masked y then c else cell_at q y)
  unfolding write_cell
  twice q t y b c h =
      let outer =
        cell_at-write_cell (write_cell q t b) t y c (length-set q.buffer (masked t) b ∙ h) in
      let inner = cell_at-write_cell q t y b h in
      elim (Bool-cases (masked t == masked y)) [
        | inl same ↦ outer ∙ rw same refl
        | inr differ ↦
            outer
            ∙ ap (λ z. if z then c else cell_at (write_cell q t b) y) differ
            ∙ inner
            ∙ ap (λ z. if z then b else cell_at q y) differ
            ∙ sym (ap (λ z. if z then c else cell_at q y) differ)
      ]

  once :
      (q : MpmcTaskQueue A) (t : ℕ) (b : Cell A)
      → length q.buffer ≡ capacity
      → cell_at (write_cell q t b) t ≡ b
  once q t b h =
      cell_at-write_cell q t t b h
      ∙ ap (λ z. if z then b else cell_at q t) ((==_iff (masked t) (masked t)).1 refl)

  same_slot :
      (t y : ℕ) (c d : Cell A) → masked t ≡ masked y → (if masked t == masked y then c else d) ≡ c
  same_slot t y c d e = ap (λ z. if z then c else d) ((==_iff (masked t) (masked y)).1 e)

  other_slot :
      (t y : ℕ) (c d : Cell A) → masked t ≢ masked y → (if masked t == masked y then c else d) ≡ d
  other_slot t y c d ne = elim (Bool-cases (masked t == masked y)) [
    | inl e ↦ absurd (ne ((==_iff (masked t) (masked y)).0 e))
    | inr e ↦ ap (λ z. if z then c else d) e
  ]

  module _ (x : A) (q : MpmcTaskQueue A) (slots : length q.buffer ≡ capacity) where
    pub pushed_there :
        (y : ℕ)
        → masked q.tail ≡ masked y
        → ((cell_at (after_push x q) y).sequence ≡ add_size q.tail 1)
          × ((cell_at (after_push x q) y).value ≡ x)
    unfolding write_cell cell_at
    pushed_there y e =
        let cell =
          twice (record q { tail = add_size q.tail 1 }) q.tail y _ _ slots
          ∙ same_slot q.tail y _ _ e in
        (
          ap (λ (c : Cell A). c.sequence) cell,
          ap (λ (c : Cell A). c.value) cell
              ∙ ap (λ (c : Cell A). c.value)
                  (once (record q { tail = add_size q.tail 1 }) q.tail _ slots),
        )

    pub pushed_elsewhere :
        (y : ℕ) → masked q.tail ≢ masked y → cell_at (after_push x q) y ≡ cell_at q y
    unfolding write_cell cell_at
    pushed_elsewhere y ne =
        twice (record q { tail = add_size q.tail 1 }) q.tail y _ _ slots
        ∙ other_slot q.tail y _ _ ne

  module _ (q : MpmcTaskQueue A) (slots : length q.buffer ≡ capacity) where
    pub popped_there :
        (y : ℕ)
        → masked q.head ≡ masked y
        → (cell_at (after_pop q) y).sequence ≡ add_size q.head capacity
    unfolding write_cell cell_at
    popped_there y e =
        ap (λ (c : Cell A). c.sequence)
          (twice (record q { head = add_size q.head 1 }) q.head y _ _ slots
            ∙ same_slot q.head y _ _ e)

    pub popped_elsewhere :
        (y : ℕ) → masked q.head ≢ masked y → cell_at (after_pop q) y ≡ cell_at q y
    unfolding write_cell cell_at
    popped_elsewhere y ne =
        twice (record q { head = add_size q.head 1 }) q.head y _ _ slots
        ∙ other_slot q.head y _ _ ne
