-- ===== src/Queue/Mpmc/Tests.antt =====
-- Two threads on one MPMCTaskQueue (MPMCTaskQueue.hpp): thread 0 pushes 7, thread 1 pops it.
use lumen_engine.Prelude.{
  ℕ, zero, suc, ◌+◌, ◌<◌, ◌≤◌, ◌≡◌, refl, ◌⊎◌, true, false, none, some, arith, get_elem?,
}
use lumen_engine.Queue.Interface.{Movable}
use lumen_engine.Queue.Mpmc.{
  capacity, idle, push_stop, push_data, pop_load, push_done, pop_done, cell_at, size_of, move,
  new_queue,
}
use lumen_engine.Queue.Mpmc.System.{
  System, update, advance, call_push, call_pop, access, return_push, return_pop, init, Reach, start,
  later,
}
use lumen_engine.Queue.Mpmc.Inv.{pop_ticket}
use lumen_engine.Queue.Mpmc.Safety.{
  no_data_race, pop_release-log, delivered_sound, delivered_complete, quiescent_delivered,
  quiescent_held,
}
use lumen_engine.Queue.Mpmc.Size.{at_once, then_step, size_lem}

instance abbrev number_movable : Movable ℕ
number_movable = record { default_value = 0; moved_from = λ x. 0 }

record Run : Type 0 where
  last : System ℕ
  reach : Reach last

abbrev accesses : ℕ → ℕ → Run → Run
accesses zero i r = r
accesses (suc n) i r =
    accesses n i (record { last = advance r.last i false; reach = later r.reach (access i false) })

abbrev fresh : Run
fresh = record { last = init; reach = start }

abbrev pushing : Run
pushing = record {
  last = record init { pc = update (λ _. idle) 0 (push_stop 7) };
  reach = later start (call_push 0 7 refl);
}

-- thread 0 has claimed its ticket, and is about to write the slot
abbrev at_data : Run
at_data = accesses 4 0 pushing

abbrev pushed_one : Run
pushed_one = accesses 6 0 pushing

at_data_pc : at_data.last.pc 0 ≡ push_data 7 0
unfolding advance move new_queue
at_data_pc = refl

push_returns : pushed_one.last.pc 0 ≡ push_done true
unfolding advance move new_queue
push_returns = refl

no_data_race_example : ◌≡◌ {A = ℕ} 0 0
unfolding advance move new_queue
no_data_race_example = no_data_race at_data.reach (omega arith) 0 0 0 refl refl

-- both threads are between calls, and 7 is in the queue
abbrev quiet : Run
unfolding advance move new_queue
quiet = record {
  last = record pushed_one.last { pc = update pushed_one.last.pc 0 idle };
  reach = later pushed_one.reach (return_push 0 true refl);
}

quiet_pc : (i : ℕ) → quiet.last.pc i ≡ idle
unfolding advance move new_queue
quiet_pc zero = refl
quiet_pc (suc i) = ground arith

quiescent_held_example :
    ((cell_at quiet.last.queue 0).sequence ≡ 1)
    × (some 7 ≡ some (cell_at quiet.last.queue 0).value)
    × (quiet.last.delivered 0 ≡ none)
unfolding advance move new_queue
quiescent_held_example =
    quiescent_held quiet.reach (omega arith) quiet_pc 0 (omega arith) (omega arith)

abbrev popping : Run
unfolding advance move new_queue
popping = record {
  last = record quiet.last { pc = update quiet.last.pc 1 pop_load };
  reach = later quiet.reach (call_pop 1 refl);
}

abbrev at_release : Run
unfolding advance move new_queue
at_release = accesses 4 1 popping

abbrev popped_one : Run
unfolding advance move new_queue
popped_one = accesses 5 1 popping

pop_returns : popped_one.last.pc 1 ≡ pop_done (some 7)
unfolding advance move new_queue
pop_returns = refl

pop_release-log_example :
    (get_elem? at_release.last.log 0 ≡ some 7)
    × (at_release.last.delivered 0 ≡ none)
    × ◌≡◌ {A = ℕ} 1 1
unfolding advance move new_queue
pop_release-log_example = pop_release-log at_release.reach (omega arith) 1 1 7 0 refl refl

delivered_sound_example :
    (get_elem? popped_one.last.log 0 ≡ some 7) × (0 < popped_one.last.queue.head)
unfolding advance move new_queue
delivered_sound_example = delivered_sound popped_one.reach (omega arith) 0 7 refl

delivered_complete_example :
    (at_release.last.delivered 0 ≡ some 7)
    ⊎ ((i : ℕ) × (pop_ticket (at_release.last.pc i) ≡ some 0))
unfolding advance move new_queue
delivered_complete_example = delivered_complete at_release.reach (omega arith) 0 (omega arith)

abbrev over : Run
unfolding advance move new_queue
over = record {
  last = record popped_one.last { pc = update popped_one.last.pc 1 idle };
  reach = later popped_one.reach (return_pop 1 (some 7) refl);
}

over_pc : (i : ℕ) → over.last.pc i ≡ idle
unfolding advance move new_queue
over_pc zero = refl
over_pc (suc zero) = refl
over_pc (suc (suc i)) = ground arith

quiescent_delivered_example : over.last.delivered 0 ≡ some 7
unfolding advance move new_queue
quiescent_delivered_example = quiescent_delivered over.reach (omega arith) over_pc 0 (omega arith)

-- `size` loads `tail` before thread 1 pops the task, and `head` while it does.
size_lem_example :
    (size_of quiet.last.queue.tail at_release.last.queue.head + quiet.last.queue.head ≤ 1)
    × (size_of quiet.last.queue.tail at_release.last.queue.head + at_release.last.queue.head ≤ 1)
    × (size_of quiet.last.queue.tail at_release.last.queue.head ≤ capacity)
    × (1 ≤ size_of quiet.last.queue.tail at_release.last.queue.head + at_release.last.queue.head)
unfolding advance move new_queue
size_lem_example =
    size_lem quiet.reach
      (then_step
        (then_step
          (then_step (then_step (then_step at_once (call_pop 1 refl)) (access 1 false))
            (access 1 false))
          (access 1 false))
        (access 1 false))
      (omega arith)
