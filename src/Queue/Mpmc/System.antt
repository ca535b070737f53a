-- ===== src/Queue/Mpmc/System.antt =====
-- Any number of threads over one MPMCTaskQueue (MPMCTaskQueue.hpp), interleaved in any order.
use lumen_engine.Prelude.{
  ℕ, ◌≡◌, Bool, Option, none, some, List, [], ◌∷◌, ◌++◌, if◌then◌else◌, ◌==◌,
}
use lumen_engine.Queue.Interface.{Movable}
use lumen_engine.Queue.Mpmc.{
  MpmcTaskQueue, Pc, idle, push_stop, push_cas, push_data, push_done, pop_load, pop_release,
  pop_done, new_queue, move, shutdown,
}

abbrev pub update {ℓ} : {B : Type ℓ} → (ℕ → B) → ℕ → B → ℕ → B
update f i b j = if i == j then b else f j

-- `log` and `delivered` are no part of the program: the tasks in the order in which `tail` was
-- claimed for them, and what was handed out for each claim of `head`.
pub record System (A : Type 0) : Type 0 where
  pub queue : MpmcTaskQueue A
  pub pc : ℕ → Pc A
  pub log : List A
  pub delivered : ℕ → Option A

abbrev pub log_claim : {A : Type 0} → Pc A → Pc A → List A → List A
log_claim (push_cas x t) (push_data y u) log = log ++ (x ∷ [])
log_claim _ _ log = log

abbrev pub log_delivery : {A : Type 0} → Pc A → (ℕ → Option A) → ℕ → Option A
log_delivery (pop_release x h) delivered = update delivered h (some x)
log_delivery _ delivered = delivered

module _ {A : Type 0} ⦃m : Movable A⦄ where
  -- One access by thread `i`.
  unfoldable pub advance : System A → ℕ → Bool → System A
  advance s i spurious =
      let r = move spurious s.queue (s.pc i) in
      record {
        queue = r.0;
        pc = update s.pc i r.1;
        log = log_claim (s.pc i) r.1 s.log;
        delivered = log_delivery (s.pc i) s.delivered;
      }

  pub data Step (s : System A) : System A → Type 0 where
    call_push :
        (i : ℕ) (x : A) → s.pc i ≡ idle → Step s (record s { pc = update s.pc i (push_stop x) })
    call_pop : (i : ℕ) → s.pc i ≡ idle → Step s (record s { pc = update s.pc i pop_load })
    access : (i : ℕ) (spurious : Bool) → Step s (advance s i spurious)
    return_push :
        (i : ℕ) (b : Bool) → s.pc i ≡ push_done b → Step s (record s { pc = update s.pc i idle })
    return_pop :
        (i : ℕ) (o : Option A) → s.pc i ≡ pop_done o → Step s (record s { pc = update s.pc i idle })
    call_shutdown : Step s (record s { queue = shutdown s.queue })

  abbrev pub init : System A
  init = record { queue = new_queue; pc = λ _. idle; log = []; delivered = λ _. none }

  pub data Reach : System A → Type 0 where
    start : Reach init
    later : {s t : System A} → Reach s → Step s t → Reach t
