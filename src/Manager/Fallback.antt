-- ===== src/Manager/Fallback.antt =====
-- The order of `main`'s detectors, as the loop of `syncLedger` takes it.
use kompakt.Prelude.{◌≡◌, refl, Bool, not, none, some, is_empty, if◌then◌else◌}
use kompakt.Int.{ℤ, pos}
use kompakt.Kube.{Quantity}
use kompakt.Inflight.ClusterAutoscaler
use kompakt.Inflight.GoatScaler
use kompakt.Inflight.GoatScaler.Message.{parse_provision_node_message}
use kompakt.Inflight.NotReady
use kompakt.Controller.Sync.{first_detection}
use kompakt.Manager.{Signals, detections}

-- The nodes of the autoscaler's status are taken if there are any, else those of the GOATScaler's
-- events if there are any, and only where neither signals a node the nodes that were never ready.
pub first_detection-detections :
    (milli_value : Quantity → ℤ) (now : ℤ) (flag : Bool) (s : Signals)
    → let by_status = ClusterAutoscaler.detect s.status in
      let by_events =
        (GoatScaler.detect parse_provision_node_message now (pos 0) s.events s.unfiltered flag).0 in
      let by_nodes = NotReady.detect milli_value now s.nodes in
      first_detection (detections milli_value now flag s) ≡ (
        if not (is_empty by_status)
        then some ("cluster-autoscaler", by_status)
        else if not (is_empty by_events)
        then some ("goatscaler", by_events)
        else if not (is_empty by_nodes)
        then some ("not-ready-nodes", by_nodes)
        else none)
unfolding detections first_detection
first_detection-detections milli_value now flag s = refl
