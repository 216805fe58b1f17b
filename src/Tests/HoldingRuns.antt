-- ===== src/Tests/HoldingRuns.antt =====
-- Calls of the controller that wait for an in-flight node.
use kompakt.Prelude.{◌≡◌, refl, true, false, some, none, [], ◌∷◌, is_empty}
use kompakt.Int.{ℤ, pos, ◌-ℤ◌, add64, sub64}
use kompakt.Dict.{lookup, get_or, insert, erase_if}
use kompakt.Clock.{time_sub}
use kompakt.Kube.{found}
use kompakt.Ledger.{
  add_node, add_inflight_node, clear_nodes, clear_inflight_by_prefix, reserve,
  snapshot_reservations, restore_reservations,
}
use kompakt.Ledger.Fit.{find_fit, find_fit_existing}
use kompakt.Text.{has_prefix}
use kompakt.Rules.{evaluate_node_ready, evaluate_workload_packing, demand_of}
use kompakt.Rules.Accounts.{plus_times}
use kompakt.Rules.Demand.{extract_demand}
use kompakt.Inflight.{InflightNode}
use kompakt.Controller.Sync.{
  listed, first_detection, sync_detected, sync_inflight, sync_inflight_node, apply_usage,
  pods_usage, sync_nodes, sync_node, sync_ledger,
}
use kompakt.Controller.Sync.Expected.{expected_amount}
use kompakt.Controller.Reconcile.{
  Cluster, Reconciler, is_timed_out, evaluate_rules, decide, reconcile,
}
use kompakt.Controller.Gates.{has_kompakt_gates}
use kompakt.Controller.Reconcile.Holding.{Expects, Ends, reconcile-Ends}
use kompakt.Tests.RuleSamples.{milli, sample_pod, sample_profile}
use kompakt.Tests.ControllerSamples.{parse, idle, sample-gated, sample-labelled}

-- A node on its way, of known capacity.
abbrev arriving : InflightNode
arriving = record {
  name = "new";
  allocatable = ("cpu", pos 2000) ∷ ("memory", pos 4000) ∷ [];
  labels = ("pool", "gpu") ∷ [];
  instance_type = "";
  detected_at = none;
}

abbrev waiting_at : ℤ → Cluster
waiting_at now = record {
  pod = found sample_pod;
  profiles = λ name. found sample_profile;
  nodes = listed [];
  pods = listed [];
  detections = (record { name = "not-ready-nodes"; found = some (arriving ∷ []) }) ∷ [];
  labelled = λ name. some (sample_pod ∷ []);
  now = now;
  patch_works = λ pod. true;
}

abbrev one : Cluster
one = waiting_at (pos 2_000_000_000)

abbrev two : Cluster
two = waiting_at (pos 3_000_000_000)

abbrev after_one : Reconciler
after_one = (reconcile milli parse one idle).after

finds_one : Expects milli parse sample_pod "gpu" sample_profile "gpu/new" one idle
unfolding reconcile has_kompakt_gates lookup get_or insert erase_if sync_ledger sync_detected
    first_detection sync_inflight sync_inflight_node add_inflight_node evaluate_rules
    evaluate_node_ready evaluate_workload_packing find_fit find_fit_existing reserve extract_demand
    is_timed_out time_sub ◌-ℤ◌ add64 sub64 snapshot_reservations restore_reservations has_prefix
    decide clear_inflight_by_prefix clear_nodes apply_usage pods_usage sync_nodes sync_node add_node
finds_one = record {
  nodes = [];
  pods = [];
  read = refl;
  known = refl;
  nodes_listed = refl;
  pods_listed = refl;
  calm = refl;
  apart = refl;
  fit = refl;
}

finds_two : Expects milli parse sample_pod "gpu" sample_profile "gpu/new" two after_one
unfolding reconcile has_kompakt_gates lookup get_or insert erase_if sync_ledger sync_detected
    first_detection sync_inflight sync_inflight_node add_inflight_node evaluate_rules
    evaluate_node_ready evaluate_workload_packing find_fit find_fit_existing reserve extract_demand
    is_timed_out time_sub ◌-ℤ◌ add64 sub64 snapshot_reservations restore_reservations has_prefix
    decide clear_inflight_by_prefix clear_nodes apply_usage pods_usage sync_nodes sync_node add_node
finds_two = record {
  nodes = [];
  pods = [];
  read = refl;
  known = refl;
  nodes_listed = refl;
  pods_listed = refl;
  calm = refl;
  apart = refl;
  fit = refl;
}

some_asked : is_empty (demand_of milli sample_pod sample_profile) ≡ false
unfolding extract_demand lookup get_or insert add64
some_asked = refl

of_profile : has_prefix "gpu/new" "gpu/" ≡ true
unfolding has_prefix
of_profile = refl

none_there : lookup "gpu/new" idle.ledger.nodes ≡ none
unfolding lookup
none_there = refl

reconcile-Ends_example :
    Ends milli parse sample_pod "gpu" sample_profile "gpu/new" idle (one ∷ two ∷ []) (λ res.
      plus_times 2
        (expected_amount "gpu/new" idle.ledger res)
        (lookup res (demand_of milli sample_pod sample_profile)))
reconcile-Ends_example =
    reconcile-Ends milli parse sample_pod "gpu" sample_profile "gpu/new"
      ("NoSuchRule" ∷ "WaitForWorkloadPacking" ∷ []) sample-gated sample-labelled refl some_asked
      of_profile (one ∷ two ∷ []) idle (record { nodes = tt; inflight = tt }) none_there
      (finds_one, (finds_two, tt))
