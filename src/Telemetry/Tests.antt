-- ===== src/Telemetry/Tests.antt =====
-- One trace handed in and reported, and one left in the buffer.
use lumen_engine.Prelude.{ℕ, ◌+◌, ◌%◌, map, arith, none, some, ◌≡◌, refl, List, [], ◌∷◌, ◌++◌}
use lumen_engine.Core.Types.{Text, InferenceTrace, new_trace}
use lumen_engine.Telemetry.{TelemetryManager, Reach, start, captured, reported}
use lumen_engine.Utils.Config.{spsc, standard}
use lumen_engine.Telemetry.Csv.{Format, save_all}
use lumen_engine.Telemetry.Csv.Read.{
  read_csv, read_file, IsField, column_names, trace_fields, save_all_lem,
}
use lumen_engine.Telemetry.Reports.{in_hand, captured_lem}

abbrev path : Text
path = 97 ∷ []

record Run : Type 0 where
  last : TelemetryManager
  log : List InferenceTrace
  reach : Reach path last log

abbrev two_traces : Run
two_traces = record {
  last = _;
  log = _;
  reach = captured (new_trace 8 1) (reported (reported (captured (new_trace 5 0) start)));
}

captured_lem_example :
    two_traces.last.rows ++ (in_hand two_traces.last.reporter ++ two_traces.last.trace_buffer)
    ≡ new_trace 5 0 ∷ new_trace 8 1 ∷ []
captured_lem_example = captured_lem path refl two_traces.reach

-- Numbers of one digit.
abbrev plain : Format
plain = record { integer = λ n. (48 + n % 10) ∷ []; fixed_4 = λ n. (48 + n % 10) ∷ [] }

digit-IsField : (n : ℕ) → IsField ((48 + n % 10) ∷ [])
digit-IsField n = ground arith

abbrev all : List (ℕ × InferenceTrace)
all = (3, new_trace 5 0) ∷ (4, new_trace 8 1) ∷ []

save_all_lem_example :
    let lines = map (trace_fields plain spsc standard) all in
    (read_file plain spsc standard digit-IsField digit-IsField
        (save_all plain spsc standard all none)
      ≡ some (column_names ∷ lines))
    × (read_file plain spsc standard digit-IsField digit-IsField
          (save_all plain spsc standard all (some []))
        ≡ some (column_names ∷ lines))
    × (read_file plain spsc standard digit-IsField digit-IsField
          (save_all plain spsc standard all (some ((97 ∷ []) ++ (10 ∷ []))))
        ≡ some (read_csv ((97 ∷ []) ++ (10 ∷ [])) ++ lines))
save_all_lem_example =
    save_all_lem plain spsc standard digit-IsField digit-IsField 3 (new_trace 5 0)
      ((4, new_trace 8 1) ∷ []) (97 ∷ [])
