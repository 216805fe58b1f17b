-- ===== src/Tests/MetricsRuns.antt =====
-- The metrics at concrete inputs.
use kompakt.Prelude.{◌≡◌, refl, false, some, none, [], ◌∷◌}
use kompakt.Int.{pos}
use kompakt.Metrics.{increment, set_gauge, gated_pods, ledger_inflight_nodes, accepts}
use kompakt.Controller.Records.{record_release, detector_gauges}
use kompakt.Tests.RuleSamples.{sample_pod}

-- A value is missing.
run_refused_update : accepts (increment gated_pods ("ml" ∷ [])) ≡ false
unfolding accepts
run_refused_update = refl

-- A detector that fails, one that finds nothing, and one behind it.
run_gauges :
    detector_gauges (
      record { name = "cluster-autoscaler"; found = none }
      ∷ record { name = "goatscaler"; found = some [] }
      ∷ [])
    ≡ set_gauge ledger_inflight_nodes ("goatscaler" ∷ []) (pos 0) ∷ []
unfolding detector_gauges
run_gauges = refl

run_message :
    (record_release (pos 9) sample_pod "gpu" "capacity" "big").1.message
    ≡ "gate released, reason=capacity, profile=gpu, targetNode=big"
unfolding record_release
run_message = refl
