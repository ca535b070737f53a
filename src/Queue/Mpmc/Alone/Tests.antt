-- ===== src/Queue/Mpmc/Alone/Tests.antt =====
-- MPMCTaskQueue.hpp: some calls, one after another.
use lumen_engine.Prelude.{ℕ, ◌≡◌, false, some, List, [], ◌∷◌, arith}
use lumen_engine.Queue.Interface.{Movable}
use lumen_engine.Queue.Client.{Call, run, fifo_task_queue}
use lumen_engine.Queue.Mpmc.{new_queue}
use lumen_engine.Queue.Mpmc.Alone.{run_calls}
use lumen_engine.Queue.Mpmc.Alone.Contract.{mpmc_policy, pushes, mpmc_run}

instance abbrev number_movable : Movable ℕ
number_movable = record { default_value = 0; moved_from = λ x. 0 }

abbrev script : List (Call ℕ)
script =
    Call.push 3
    ∷ Call.push 4
    ∷ Call.pop
    ∷ Call.push 5
    ∷ Call.pop_batch (9 ∷ []) 7
    ∷ Call.pop
    ∷ Call.shutdown
    ∷ Call.push 6
    ∷ Call.size
    ∷ []

mpmc_run_example :
    run_calls new_queue script
    ≡ some (run (fifo_task_queue ℕ mpmc_policy) (record { items = []; stopped = false }) script)
unfolding pushes
mpmc_run_example = mpmc_run script (omega arith)
