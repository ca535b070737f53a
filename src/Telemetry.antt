-- ===== src/Telemetry.antt =====
-- src/TelemetryManager.cpp and include/lumen/telemetry/TelemetryManager.hpp: any number of threads hand in
-- traces, and one thread reports them. A step is what a thread does while it holds the mutex, or
-- what the reporting thread does with the traces it has taken.
pub mod Reports
pub mod Csv
pub mod Snapshot
mod Tests
use lumen_engine.Prelude.{ℕ, ◌≡◌, Bool, true, false, not, ◌&&◌, List, [], ◌∷◌, ◌++◌, if◌then◌else◌}
use lumen_engine.Core.Types.{Text, InferenceTrace}

-- Where the reporting thread stands: before it takes the lock, with a batch in hand, or returned.
pub data Reporter : Type 0 where
  waiting : Reporter
  reporting : List InferenceTrace → Reporter
  returned : Reporter

pub record TelemetryManager : Type 0 where
  pub trace_buffer : List InferenceTrace
  pub running : Bool
  pub reporter : Reporter
  pub rows : List InferenceTrace  -- given to `save_to_csv`, oldest first

abbrev pub new_manager : TelemetryManager
new_manager = record { trace_buffer = []; running = true; reporter = waiting; rows = [] }

abbrev pub is_empty : {A : Type 0} → List A → Bool
is_empty [] = true
is_empty (x ∷ xs) = false

unfoldable pub capture_trace : InferenceTrace → TelemetryManager → TelemetryManager
capture_trace trace m = record m { trace_buffer = m.trace_buffer ++ (trace ∷ []) }

unfoldable pub shutdown : TelemetryManager → TelemetryManager
shutdown m = record m { running = false }

-- The loop's `while (m_running)`, after a batch.
abbrev pub next_round : TelemetryManager → Reporter
next_round m = if m.running then waiting else returned

-- The wait is over, by a signal or by its second: the test and the `swap`.
unfoldable pub take_batch : TelemetryManager → TelemetryManager
take_batch m =
    if not m.running && is_empty m.trace_buffer
    then record m { reporter = returned }
    else record m { trace_buffer = []; reporter = reporting m.trace_buffer }

-- `process_snapshot`: the rows; its averages are only printed. An empty path saves nothing.
unfoldable pub process_snapshot :
    (path : Text) → List InferenceTrace → TelemetryManager → TelemetryManager
process_snapshot path batch m = record m {
  rows = if is_empty path then m.rows else m.rows ++ batch;
  reporter = next_round m;
}

-- What one step of the reporting thread does where it stands.
unfoldable pub reporting_loop : (path : Text) → Reporter → TelemetryManager → TelemetryManager
unfolding take_batch process_snapshot
reporting_loop path waiting m = take_batch m
reporting_loop path (reporting batch) m = process_snapshot path batch m
reporting_loop path returned m = m

-- The manager after some steps, with the traces handed in, oldest first.
pub data Reach (path : Text) : TelemetryManager → List InferenceTrace → Type 0 where
  start : Reach path new_manager []
  captured :
      {m : TelemetryManager} {log : List InferenceTrace} (trace : InferenceTrace)
      → Reach path m log
      → Reach path (capture_trace trace m) (log ++ (trace ∷ []))
  stopped :
      {m : TelemetryManager} {log : List InferenceTrace}
      → Reach path m log
      → Reach path (shutdown m) log
  reported :
      {m : TelemetryManager} {log : List InferenceTrace}
      → Reach path m log
      → Reach path (reporting_loop path m.reporter m) log
