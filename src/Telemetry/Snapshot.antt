-- ===== src/Telemetry/Snapshot.antt =====
-- `process_snapshot` of src/TelemetryManager.cpp: the sums and the percentile of a batch.
use lumen_engine.Prelude.{
  ℕ, ◌+◌, ◌-◌, ◌*◌, ◌/◌, Option, none, some, List, [], ◌∷◌, length, get_or, if◌then◌else◌, leb,
}
use lumen_engine.Core.Types.{InferenceTrace}

-- What is printed of a batch, before the division by its count.
pub record Snapshot : Type 0 where
  pub count : ℕ
  pub sum_e2e : ℕ
  pub sum_queue : ℕ
  pub sum_pre : ℕ
  pub sum_infer : ℕ
  pub sum_post : ℕ
  pub p99_val : ℕ

unfoldable pub sum_of : (InferenceTrace → ℕ) → List InferenceTrace → ℕ
sum_of field [] = 0
sum_of field (t ∷ batch) = field t + sum_of field batch

abbrev pub latencies : List InferenceTrace → List ℕ
latencies [] = []
latencies (t ∷ batch) = t.total_e2e_ms ∷ latencies batch

-- `static_cast<size_t>(count * 0.99)`, and the clamp. The product is that of `double`, rounded to the
-- nearest; below 10^12 its whole part is that of the exact product, which stands here.
abbrev pub p99_idx : (count : ℕ) → ℕ
p99_idx count = let scaled = count * 99 / 100 in if leb count scaled then count - 1 else scaled

-- The element that `nth_element` brings to a place is the one that stands there when the elements
-- are in order.
abbrev pub insert : ℕ → List ℕ → List ℕ
insert x [] = x ∷ []
insert x (y ∷ ys) = let rest = insert x ys in if leb x y then x ∷ y ∷ ys else y ∷ rest

unfoldable pub in_order : List ℕ → List ℕ
in_order [] = []
in_order (x ∷ xs) = insert x (in_order xs)

unfoldable pub nth_element : List ℕ → ℕ → ℕ
unfolding in_order
nth_element xs n = get_or (in_order xs) n 0

-- `none`: the batch is empty.
unfoldable pub snapshot_of : List InferenceTrace → Option Snapshot
snapshot_of [] = none
snapshot_of (t ∷ batch) = some (record {
  count = length (t ∷ batch);
  sum_e2e = sum_of (λ t. t.total_e2e_ms) (t ∷ batch);
  sum_queue = sum_of (λ t. t.queue_wait_ms) (t ∷ batch);
  sum_pre = sum_of (λ t. t.preprocess_ms) (t ∷ batch);
  sum_infer = sum_of (λ t. t.inference_ms) (t ∷ batch);
  sum_post = sum_of (λ t. t.postprocess_ms) (t ∷ batch);
  p99_val = nth_element (latencies (t ∷ batch)) (p99_idx (length (t ∷ batch)));
})
