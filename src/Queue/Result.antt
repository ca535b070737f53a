-- ===== src/Queue/Result.antt =====
-- include/lumen/concurrency/NaiveResultQueue.hpp: the queue by which the workers answer the server.
-- Every method holds the mutex throughout, so a call is one step.
use lumen_engine.Prelude.{
  ℕ, zero, suc, ◌+◌, ◌≡◌, ◌<◌, sym, ◌∙◌, arith, length-append, refl, ap, Bool, true, false, not,
  ◌||◌, ◌&&◌, Option, none, some, List, [], ◌∷◌, ◌++◌, if◌then◌else◌, length, append_assoc,
  append-nil,
}
use lumen_engine.Queue.Interface.{Blocking, blocked, returned}

pub record NaiveResultQueue (A : Type 0) : Type 0 where
  pub items : List A
  pub stop : Bool

abbrev is_empty : {A : Type 0} → List A → Bool
is_empty [] = true
is_empty (x ∷ xs) = false

module _ {A : Type 0} where
  unfoldable pub push : A → NaiveResultQueue A → NaiveResultQueue A
  push result q = record q { items = q.items ++ (result ∷ []) }

  abbrev pub take_front : NaiveResultQueue A → List A → Option A × NaiveResultQueue A
  take_front q [] = (none, q)
  take_front q (x ∷ xs) = (some x, record q { items = xs })

  pub pop : NaiveResultQueue A → Blocking (Option A × NaiveResultQueue A)
  pop q = if not (is_empty q.items) || q.stop then returned (take_front q q.items) else blocked

  unfoldable pub pop_immediate : NaiveResultQueue A → Option A × NaiveResultQueue A
  pop_immediate q = take_front q q.items

  pub size : NaiveResultQueue A → ℕ
  size q = length q.items

  pub empty : NaiveResultQueue A → Bool
  empty q = is_empty q.items

  pub shutdown : NaiveResultQueue A → NaiveResultQueue A
  shutdown q = record q { stop = true }

  -- Results pushed in a row.
  pub push_all : List A → NaiveResultQueue A → NaiveResultQueue A
  push_all [] q = q
  push_all (x ∷ xs) q = push_all xs (push x q)

  -- `while (auto r = pop_immediate())`, as the server polls, with fuel for the calls; `none`: the loop
  -- has not ended.
  pub drain : ℕ → NaiveResultQueue A → Option (List A × NaiveResultQueue A)
  drain zero q = none
  drain (suc fuel) q =
      let r = pop_immediate q in
      elim r.0 [
        | none ↦ some ([], r.1)
        | some x ↦ elim (drain fuel r.1) [ none ↦ none | some d ↦ some (x ∷ d.0, d.1) ]
      ]

  push_all_items :
      (xs : List A) (q : NaiveResultQueue A) → push_all xs q ≡ record q { items = q.items ++ xs }
  unfolding push_all push
  push_all_items [] q = ap (λ l. record q { items = l }) (sym (append-nil q.items))
  push_all_items (x ∷ xs) q =
      push_all_items xs (push x q)
      ∙ ap (λ l. record q { items = l }) (append_assoc q.items (x ∷ []) xs)

  drain_items :
      (xs : List A) (stop : Bool) (fuel : ℕ)
      → length xs < fuel
      → drain fuel (record { items = xs; stop = stop })
        ≡ some (xs, record { items = []; stop = stop })
  unfolding drain pop_immediate
  drain_items xs stop zero h = elim h [ ]
  drain_items [] stop (suc fuel) h = refl
  drain_items (x ∷ xs) stop (suc fuel) h = rw (drain_items xs stop fuel (omega arith), drain) refl

  -- Whatever results the workers push, in whatever state of the queue, the polling ends after one
  -- call more than there are results: it returns the results that were there and then the new ones,
  -- in order, each once, and leaves the queue empty; the stop flag is neither read nor changed.
  pub drain-push_all :
      (xs : List A) (q : NaiveResultQueue A) (fuel : ℕ)
      → length q.items + length xs < fuel
      → drain fuel (push_all xs q) ≡ some (q.items ++ xs, record q { items = [] })
  drain-push_all xs q fuel h =
      rw (push_all_items xs q)
        (drain_items (q.items ++ xs) q.stop fuel (omega (arith, length-append q.items xs)))

  -- `pop` waits exactly while the queue is empty and not stopped, and otherwise returns what
  -- `pop_immediate` returns; so after `shutdown` it never waits.
  pub pop_lem :
      (q : NaiveResultQueue A)
      → (pop q ≡ (if empty q && not q.stop then blocked else returned (pop_immediate q)))
        × (pop (shutdown q) ≡ returned (pop_immediate (shutdown q)))
  unfolding pop empty pop_immediate shutdown
  pop_lem q = (ground arith, ground arith)
