-- ===== src/Telemetry/Reports.antt =====
-- The traces handed to src/TelemetryManager.cpp, and where they are.
use lumen_engine.Prelude.{
  ◌≡◌, refl, sym, ap, ap₂, ◌∙◌, Bool, true, false, not, ◌&&◌, List, [], ◌∷◌, ◌++◌, append-nil,
  append_assoc, if◌then◌else◌, if_elim,
}
use lumen_engine.Core.Types.{Text, InferenceTrace}
use lumen_engine.Telemetry.{
  Reporter, waiting, reporting, returned, TelemetryManager, is_empty, capture_trace, shutdown,
  take_batch, process_snapshot, reporting_loop, Reach, start, captured, stopped, reported,
}

abbrev pub in_hand : Reporter → List InferenceTrace
in_hand (reporting batch) = batch
in_hand waiting = []
in_hand returned = []

abbrev Accounted : TelemetryManager → List InferenceTrace → Type 0
Accounted m log = m.rows ++ (in_hand m.reporter ++ m.trace_buffer) ≡ log

idle : (b : Bool) → in_hand (if b then waiting else returned) ≡ []
idle true = refl
idle false = refl

reporting_loop-Accounted :
    (path : Text) (log : List InferenceTrace) (r : Reporter) (m : TelemetryManager)
    → is_empty path ≡ false
    → m.reporter ≡ r
    → Accounted m log
    → Accounted (reporting_loop path r m) log
unfolding reporting_loop take_batch process_snapshot
reporting_loop-Accounted path log waiting m named e h =
    let held : m.rows ++ m.trace_buffer ≡ log =
      ap (λ r. m.rows ++ (in_hand r ++ m.trace_buffer)) (sym e) ∙ h in
    if_elim (λ m'. Accounted m' log) (not m.running && is_empty m.trace_buffer) (λ _. held)
      (λ _. ap (λ l. m.rows ++ l) (append-nil m.trace_buffer) ∙ held)
reporting_loop-Accounted path log (reporting batch) m named e h =
    ap₂ (λ b hand. (if b then m.rows else m.rows ++ batch) ++ (hand ++ m.trace_buffer)) named
      (idle m.running)
    ∙ append_assoc m.rows batch m.trace_buffer
    ∙ ap (λ r. m.rows ++ (in_hand r ++ m.trace_buffer)) (sym e)
    ∙ h
reporting_loop-Accounted path log returned m named e h = h

-- If the path is not empty: in whatever order threads hand in traces, the reporting thread runs and the
-- manager is shut down, the rows saved, the batch in hand and the buffer are together the traces
-- handed in, each once and in order.
pub captured_lem :
    (path : Text) {m : TelemetryManager} {log : List InferenceTrace}
    → is_empty path ≡ false
    → Reach path m log
    → m.rows ++ (in_hand m.reporter ++ m.trace_buffer) ≡ log
unfolding capture_trace shutdown
captured_lem path named start = refl
captured_lem path named (captured {m} {log} trace r) =
    ap (λ l. m.rows ++ l) (sym (append_assoc (in_hand m.reporter) m.trace_buffer (trace ∷ [])))
    ∙ sym (append_assoc m.rows (in_hand m.reporter ++ m.trace_buffer) (trace ∷ []))
    ∙ ap (λ l. l ++ (trace ∷ [])) (captured_lem path named r)
captured_lem path named (stopped r) = captured_lem path named r
captured_lem path named (reported {m} {log} r) =
    reporting_loop-Accounted path log m.reporter m named refl (captured_lem path named r)
