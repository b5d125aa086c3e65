-- ===== src/Metrics.antt =====
-- pkg/metrics/metrics.go: the wrapper that records how each call of the Aiven API ended.
pub mod Laws
use kafkarator.Base.{ℤ, String, Option, none, some, [], ◌∷◌, ◌++◌}
use kafkarator.Base.Int.{pos}
use kafkarator.Go.{Result, ok, err, panic, assert_aiven, Action, Sys, Observation}

-- The label `status`: 200 for success, the status of an Aiven error, and 0 for any other error.
unfoldable pub latency_status : {A : Type 0} → Result A → ℤ
latency_status (ok _) = pos 200
latency_status (err e) = elim (assert_aiven e) [ some a ↦ a.status | none ↦ pos 0 ]
latency_status panic = pos 0

-- `ObserveAivenLatency`. A panic in `fun` passes through it with no sample taken.
unfoldable pub observe_aiven_latency : {W A : Type 0} → String → String → Action W A → Action W A
unfolding latency_status
observe_aiven_latency operation pool fun s =
    let (r, t) = fun s in
    let sample : Observation = record {
      operation = operation;
      status = latency_status r;
      pool = pool;
    } in
    let sampled = record t { observed = t.observed ++ (sample ∷ []) } in
    elim r [ ok a ↦ (ok a, sampled) | err e ↦ (err e, sampled) | panic ↦ (panic, t) ]
