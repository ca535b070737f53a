-- ===== src/Queue/Spsc/Refine.antt =====
-- SPSCTaskQueue.hpp against a bounded queue of at most 1023 tasks.
use lumen_engine.Prelude.{
  ℕ, suc, ◌+◌, ◌%◌, ◌<◌, ◌≡◌, ◌∙◌, sym, refl, ◌⊎◌, true, false, none, some, List, [], ◌∷◌, ◌++◌,
  arith, length, get_elem?, get_or, set, word, length-append, length-set, get_elem?-set_self,
  get_elem?-set_ne, get_elem?-append_of_lt, get_elem?-append_end, get_elem?-eq-get_or,
  length-replicate, dec_lt,
}
use lumen_engine.Queue.Interface.{Movable}
use lumen_engine.Queue.Spsc.{capacity, SpscTaskQueue, new_queue, push, pop, size}

module _ {A : Type 0} where
  -- The queue holds the tasks `xs`, oldest first, after `start` pops. The counters are these
  -- unbounded numbers modulo 2^64.
  pub record Holds (q : SpscTaskQueue A) (start : ℕ) (xs : List A) : Type 0 where
    pub slots : length q.buffer ≡ capacity
    pub head_at : q.head ≡ start % word
    pub tail_at : q.tail ≡ (start + length xs) % word
    pub fits : length xs < capacity
    pub items :
        (i : ℕ) → i < length xs → get_elem? q.buffer ((start + i) % capacity) ≡ get_elem? xs i

  pub size-Holds :
      {q : SpscTaskQueue A} {start : ℕ} {xs : List A} → Holds q start xs → size q ≡ length xs
  unfolding size
  size-Holds h = omega arith

module _ {A : Type 0} ⦃m : Movable A⦄ where
  pub new_queue-Holds : Holds (new_queue {A = A}) 0 []
  unfolding new_queue
  new_queue-Holds = record {
    slots = length-replicate capacity m.default_value;
    head_at = refl;
    tail_at = refl;
    fits = omega arith;
    items = λ i h. elim h [ ];
  }

  push_items :
      (x : A) {q : SpscTaskQueue A} {start : ℕ} {xs : List A}
      → Holds q start xs
      → length xs + 1 < capacity
      → (i : ℕ) → i < length xs + 1
      → get_elem? (set q.buffer (q.tail % capacity) x) ((start + i) % capacity)
        ≡ get_elem? (xs ++ (x ∷ [])) i
  push_items x {q} {start} {xs} h room i lt = elim (dec_lt i (length xs)) [
    | yes old ↦
        get_elem?-set_ne q.buffer (q.tail % capacity) ((start + i) % capacity) x (omega arith)
        ∙ h.items i old
        ∙ sym (get_elem?-append_of_lt xs (x ∷ []) i old)
    | no new ↦
        let e : (start + i) % capacity ≡ q.tail % capacity = omega arith in
        rw e (get_elem?-set_self q.buffer (q.tail % capacity) x (omega arith))
        ∙ sym (get_elem?-append_end xs x i (omega arith))
  ]

  pub push-Holds :
      (x : A) {q : SpscTaskQueue A} {start : ℕ} {xs : List A}
      → Holds q start xs
      → length xs + 1 < capacity
      → q.stop_flag ≡ false
      → (r : SpscTaskQueue A) × (push x q ≡ (true, r))
        × Holds r start (xs ++ (x ∷ []))
        × (r.stop_flag ≡ false)
  unfolding push
  push-Holds x {q} {start} {xs} h room s = (
    record q { buffer = set q.buffer (q.tail % capacity) x; tail = (q.tail + 1) % word },
    ground arith,
    record {
      slots = omega (arith, length-set q.buffer (q.tail % capacity) x);
      head_at = h.head_at;
      tail_at = omega (arith, length-append xs (x ∷ []));
      fits = omega (arith, length-append xs (x ∷ []));
      items = λ i lt. push_items x h room i (omega (arith, length-append xs (x ∷ [])));
    },
    s,
  )

  pub push_refused :
      (x : A) {q : SpscTaskQueue A} {start : ℕ} {xs : List A}
      → Holds q start xs
      → (q.stop_flag ≡ true) ⊎ (length xs + 1 ≡ capacity)
      → push x q ≡ (false, q)
  unfolding push
  push_refused x h w = ground arith

  pub pop-Holds :
      (x : A) {q : SpscTaskQueue A} {start : ℕ} (xs : List A)
      → Holds q start (x ∷ xs)
      → (r : SpscTaskQueue A) × (pop q ≡ (some x, r))
        × Holds r (start + 1) xs
        × (r.stop_flag ≡ q.stop_flag)
  unfolding pop
  pop-Holds x {q} {start} xs h = (
    record q {
      buffer = set q.buffer (q.head % capacity) (m.moved_from x);
      head = (q.head + 1) % word;
    },
    ground (arith, head_value),
    record {
      slots = omega (arith, length-set q.buffer (q.head % capacity) (m.moved_from x));
      head_at = omega arith;
      tail_at = omega arith;
      fits = omega arith;
      items = λ i lt.
          get_elem?-set_ne q.buffer (q.head % capacity) ((start + 1 + i) % capacity)
            (m.moved_from x) (omega arith)
          ∙ rw (shift i) (h.items (suc i) (omega arith));
    },
    refl,
  )
    where
      shift : (i : ℕ) → (start + 1 + i) % capacity ≡ (start + suc i) % capacity
      shift i = omega arith

      place : (start + 0) % capacity ≡ q.head % capacity
      place = omega arith

      head_value : get_or q.buffer (q.head % capacity) m.default_value ≡ x
      head_value = ground (
        arith,
        place,
        get_elem?-eq-get_or q.buffer (q.head % capacity) m.default_value,
        h.items 0,
      )

  pub pop-Holds_nil : {q : SpscTaskQueue A} {start : ℕ} → Holds q start [] → pop q ≡ (none, q)
  unfolding pop
  pop-Holds_nil h = ground arith
