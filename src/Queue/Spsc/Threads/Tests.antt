-- ===== src/Queue/Spsc/Threads/Tests.antt =====
-- SPSCTaskQueue.hpp: the producer pushes 7 and begins to push 8 while the consumer pops.
use lumen_engine.Prelude.{ℕ, take, zero, suc, ◌+◌, ◌≤◌, ◌≡◌, ◌≢◌, refl, true}
use lumen_engine.Queue.Interface.{Movable}
use lumen_engine.Queue.Spsc.{SpscTaskQueue, masked, new_queue}
use lumen_engine.Queue.Spsc.Threads.{
  Threads, Producer, Consumer, push_move, pop_move, produce, consume, Reach, init, start, later,
  call_push, call_pop, produced, consumed, return_push,
}
use lumen_engine.Queue.Spsc.Threads.Safety.{
  delivered_in_order, no_slot_race, accesses_of_push, accesses_of_pop, accesses_lem,
}

instance abbrev number_movable : Movable ℕ
number_movable = record { default_value = 0; moved_from = λ x. 0 }

record Run : Type 0 where
  last : Threads ℕ
  reach : Reach last

abbrev produces : ℕ → Run → Run
produces zero r = r
produces (suc n) r = produces n (record { last = produce r.last; reach = later r.reach produced })

abbrev consumes : ℕ → Run → Run
consumes zero r = r
consumes (suc n) r = consumes n (record { last = consume r.last; reach = later r.reach consumed })

abbrev pushed_seven : Run
pushed_seven = produces 5 (record {
  last = record init { producer = Producer.at_stop 7 };
  reach = later start (call_push 7 refl);
})

abbrev popping : Run
unfolding produce push_move new_queue
popping = record {
  last = record pushed_seven.last { consumer = Consumer.at_head };
  reach = later pushed_seven.reach (call_pop refl);
}

abbrev again : Run
unfolding produce push_move new_queue
again = record {
  last = record popping.last { producer = Producer.idle };
  reach = later popping.reach (return_push true refl);
}

abbrev pushing_eight : Run
unfolding produce push_move new_queue
pushing_eight = produces 3 (record {
  last = record again.last { producer = Producer.at_stop 8 };
  reach = later again.reach (call_push 8 refl);
})

abbrev both_at_data : Run
unfolding produce push_move new_queue
both_at_data = consumes 2 pushing_eight

abbrev popped_seven : Run
unfolding produce push_move new_queue
popped_seven = consumes 4 pushing_eight

delivered_in_order_example :
    (popped_seven.last.delivered ≡ take 1 popped_seven.last.log) × (1 ≤ 1) × (1 ≤ 1 + 1023)
unfolding produce consume push_move pop_move new_queue
delivered_in_order_example = delivered_in_order popped_seven.reach

no_slot_race_example : masked 1 ≢ masked 0
unfolding produce consume push_move pop_move new_queue
no_slot_race_example = no_slot_race 8 1 0 both_at_data.reach refl refl

abbrev one_item : SpscTaskQueue ℕ
one_item = popping.last.queue

accesses_lem_example :
    (accesses_of_push (push_move one_item (Producer.at_head 8 1)).1 ≤ 2)
    × (accesses_of_pop (pop_move one_item (Consumer.at_data 0)).1 ≤ 1)
    × (3 ≤ 5)
    × (2 ≤ 4)
accesses_lem_example = accesses_lem one_item (Producer.at_head 8 1) (Consumer.at_data 0)
