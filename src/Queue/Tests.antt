-- ===== src/Queue/Tests.antt =====
-- Runs and instances of the queue classes on small inputs.
use lumen_engine.Prelude.{ℕ, ◌≡◌, false, some, List, [], ◌∷◌, arith}
use lumen_engine.Queue.Interface.{Movable}
use lumen_engine.Queue.Client.{Call, run, fifo_task_queue}
use lumen_engine.Queue.Spsc
use lumen_engine.Queue.Spsc.Contract.{spsc_policy, spsc_run}
use lumen_engine.Queue.Naive.{NaiveTaskQueue, naive_task_queue}
use lumen_engine.Queue.Naive.Contract.{naive_policy, view, naive_run}
use lumen_engine.Queue.Result.{NaiveResultQueue, push_all, drain, drain-push_all}

instance abbrev number_movable : Movable ℕ
number_movable = record { default_value = 0; moved_from = λ x. 0 }

abbrev script : List (Call ℕ)
script =
    Call.push 5
    ∷ Call.push 6
    ∷ Call.size
    ∷ Call.pop
    ∷ Call.push 7
    ∷ Call.pop_batch [] 3
    ∷ Call.empty
    ∷ Call.shutdown
    ∷ Call.push 8
    ∷ Call.pop
    ∷ []

spsc_run_example :
    run (Spsc.spsc_task_queue ℕ) Spsc.new_queue script
    ≡ run (fifo_task_queue ℕ spsc_policy) (record { items = []; stopped = false }) script
spsc_run_example = spsc_run ⦃m = number_movable⦄ script

abbrev two_items : NaiveTaskQueue ℕ
two_items = record { items = 1 ∷ 2 ∷ []; stop = false }

naive_run_example :
    run (naive_task_queue ℕ) two_items script
    ≡ run (fifo_task_queue ℕ naive_policy) (view two_items) script
naive_run_example = naive_run script two_items

abbrev results : NaiveResultQueue ℕ
results = record { items = 4 ∷ []; stop = false }

drain-push_all_example :
    drain 4 (push_all (5 ∷ 6 ∷ []) results)
    ≡ some (4 ∷ 5 ∷ 6 ∷ [], record { items = []; stop = false })
drain-push_all_example = drain-push_all (5 ∷ 6 ∷ []) results 4 (omega arith)
