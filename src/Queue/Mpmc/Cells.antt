-- ===== src/Queue/Mpmc/Cells.antt =====
-- The slots of MPMCTaskQueue.hpp and the writes to them.
use lumen_engine.Prelude.{
  ℕ, zero, suc, ◌<◌, ◌≡◌, refl, ap, ◌≢◌, List, [], ◌∷◌, get_or, set, length, if◌then◌else◌, ◌==◌,
  arith,
}
use lumen_engine.Queue.Interface.{Movable}
use lumen_engine.Queue.Mpmc.{
  capacity, masked, Cell, MpmcTaskQueue, Pc, push_seq, push_cas, push_data, push_publish, pop_seq,
  pop_cas, pop_data, pop_release, cell_at, write_cell,
}
use lumen_engine.Queue.Mpmc.System.{update}
use lumen_engine.Queue.Mpmc.Inv.{ThreadOk}

pub get_or-set {ℓ} :
    {A : Type ℓ} (xs : List A) (i j : ℕ) (v d : A)
    → i < length xs
    → get_or (set xs i v) j d ≡ (if i == j then v else get_or xs j d)
get_or-set [] i j v d h = elim h [ ]
get_or-set (x ∷ xs) zero zero v d h = refl
get_or-set (x ∷ xs) zero (suc j) v d h = ground arith
get_or-set (x ∷ xs) (suc i) zero v d h = ground arith
get_or-set (x ∷ xs) (suc i) (suc j) v d h = ground (arith, get_or-set xs i j v d)

pub update_ne {ℓ} : {B : Type ℓ} (f : ℕ → B) (i j : ℕ) (b : B) → i ≢ j → update f i b j ≡ f j
update_ne f i j b ne = ground arith

pub update_eq {ℓ} : {B : Type ℓ} (f : ℕ → B) (i j : ℕ) (b : B) → i ≡ j → update f i b j ≡ b
update_eq f i j b e = ground arith

module _ {A : Type 0} ⦃m : Movable A⦄ where
  pub cell_at_cong :
      (q : MpmcTaskQueue A) (x y : ℕ) → masked x ≡ masked y → cell_at q x ≡ cell_at q y
  unfolding cell_at
  cell_at_cong q x y h =
      ap (λ c. get_or q.buffer c (record { sequence = 0; value = m.default_value })) h

  pub cell_at-write_cell :
      (q : MpmcTaskQueue A) (x y : ℕ) (c : Cell A)
      → length q.buffer ≡ capacity
      → cell_at (write_cell q x c) y ≡ (if masked x == masked y then c else cell_at q y)
  unfolding cell_at write_cell
  cell_at-write_cell q x y c h = get_or-set q.buffer (masked x) (masked y) c _ (omega arith)

  -- The slot at whose sequence number a thread's facts look.
  abbrev pub Relies : MpmcTaskQueue A → Pc A → ℕ → Type 0
  Relies q (push_cas x t) u = (t ≡ u) × (t ≡ q.tail)
  Relies q (push_data x t) u = t ≡ u
  Relies q (push_publish t) u = t ≡ u
  Relies q (pop_cas h) u = (h ≡ u) × (h ≡ q.head)
  Relies q (pop_data h) u = h ≡ u
  Relies q (pop_release x h) u = h ≡ u
  Relies q _ u = ⊥

  cell_at_elsewhere :
      (q : MpmcTaskQueue A) (x u : ℕ) (c : Cell A)
      → length q.buffer ≡ capacity
      → masked u ≢ masked x
      → cell_at (write_cell q x c) u ≡ cell_at q u
  cell_at_elsewhere q x u c h ne = ground (arith, cell_at-write_cell q x u c)

  -- A thread keeps its facts when a slot at which they do not look is written.
  pub write_cell-ThreadOk :
      (q : MpmcTaskQueue A) (log : List A) (x : ℕ) (c : Cell A)
      → length q.buffer ≡ capacity
      → (p : Pc A) → ((u : ℕ) → Relies q p u → masked u ≢ masked x)
      → ThreadOk q log p
      → ThreadOk (write_cell q x c) log p
  unfolding write_cell
  write_cell-ThreadOk q log x c h (push_seq y t) free ok = ok
  write_cell-ThreadOk q log x c h (push_cas y t) free ok =
      (ok.0, λ e. rw (cell_at_elsewhere q x t c h (free t (refl, e))) (ok.1 e))
  write_cell-ThreadOk q log x c h (push_data y t) free ok =
      rw (cell_at_elsewhere q x t c h (free t refl)) ok
  write_cell-ThreadOk q log x c h (push_publish t) free ok =
      rw (cell_at_elsewhere q x t c h (free t refl)) ok
  write_cell-ThreadOk q log x c h (pop_seq t) free ok = ok
  write_cell-ThreadOk q log x c h (pop_cas t) free ok =
      (ok.0, λ e. rw (cell_at_elsewhere q x t c h (free t (refl, e))) (ok.1 e))
  write_cell-ThreadOk q log x c h (pop_data t) free ok =
      rw (cell_at_elsewhere q x t c h (free t refl)) ok
  write_cell-ThreadOk q log x c h (pop_release y t) free ok =
      rw (cell_at_elsewhere q x t c h (free t refl)) ok
  write_cell-ThreadOk q log x c h _ free ok = tt
