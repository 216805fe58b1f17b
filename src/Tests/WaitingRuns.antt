-- ===== src/Tests/WaitingRuns.antt =====
-- Calls of the controller that hold a pod.
use kompakt.Prelude.{
  ◌*◌, String, ◌==◌, ◌≡◌, refl, true, Option, some, none, [], ◌∷◌, length, arith, if◌then◌else◌,
}
use kompakt.Int.{ℤ, pos, ◌+ℤ◌, ◌-ℤ◌, ◌≤ℤ◌, add64, sub64}
use kompakt.Dict.{lookup, get_or, insert, erase_if}
use kompakt.Clock.{time_sub, second}
use kompakt.Kube.{found}
use kompakt.Ledger.{
  empty, has_inflight_signal, add_node, clear_nodes, clear_inflight_by_prefix, reserve,
  snapshot_reservations, restore_reservations,
}
use kompakt.Ledger.Fit.{find_fit, find_fit_existing}
use kompakt.Text.{has_prefix}
use kompakt.Rules.{evaluate_node_ready, evaluate_workload_packing}
use kompakt.Rules.Demand.{extract_demand}
use kompakt.Controller.Gates.{label_profile, has_kompakt_gates}
use kompakt.Controller.Sync.{listed, apply_usage, pods_usage, sync_nodes, sync_node, sync_ledger}
use kompakt.Controller.Reconcile.{
  Cluster, Reconciler, is_timed_out, evaluate_rules, decide, reconcile,
}
use kompakt.Controller.Reconcile.Waiting.{IsHeld, AreHeld-timeout}
use kompakt.Tests.RuleSamples.{milli, sample_pod, sample_profile}

abbrev parse : String → Option ℤ
parse s = if s == "5m" then some (pos 300_000_000_000) else none

-- A cluster without nodes.
abbrev bare_at : ℤ → Cluster
bare_at now = record {
  pod = found sample_pod;
  profiles = λ name. found sample_profile;
  nodes = listed [];
  pods = listed [];
  detections = [];
  labelled = λ name. some (sample_pod ∷ []);
  now = now;
  patch_works = λ pod. true;
}

abbrev first : Cluster
first = bare_at (pos 2_000_000_000)

abbrev second_call : Cluster
second_call = bare_at (pos 3_000_000_000)

abbrev idle : Reconciler
idle = record { ledger = empty; active_detectors = [] }

abbrev once : Reconciler
once = (reconcile milli parse first idle).after

run_held :
    ((reconcile milli parse first idle).requeue ≡ true)
    × ((reconcile milli parse second_call once).requeue ≡ true)
unfolding reconcile has_kompakt_gates lookup get_or insert erase_if sync_ledger evaluate_rules
    evaluate_node_ready evaluate_workload_packing find_fit find_fit_existing reserve extract_demand
    is_timed_out time_sub ◌-ℤ◌ add64 sub64 snapshot_reservations restore_reservations has_prefix
    decide clear_inflight_by_prefix clear_nodes apply_usage pods_usage sync_nodes sync_node add_node
    has_inflight_signal
run_held = (refl, refl)

gated : has_kompakt_gates sample_pod ≡ true
unfolding has_kompakt_gates
gated = refl

labelled : lookup label_profile sample_pod.labels ≡ some "gpu"
unfolding lookup
labelled = refl

abbrev held_at :
    (now : ℤ) (r : Reconciler)
    → (reconcile milli parse (bare_at now) r).requeue ≡ true
    → IsHeld milli parse (pos 1_000_000_000) (pos 300_000_000_000) (bare_at now) r
held_at now r h = record {
  pod = sample_pod;
  profile_name = "gpu";
  profile = sample_profile;
  nodes = [];
  pods = [];
  read = refl;
  gated = gated;
  labelled = labelled;
  known = refl;
  nodes_listed = refl;
  pods_listed = refl;
  since = refl;
  limit = refl;
  held = h;
}

AreHeld-timeout_example : pos (length (first ∷ second_call ∷ []) * second) ≤ℤ pos 300_000_000_000
unfolding ◌+ℤ◌
AreHeld-timeout_example =
    AreHeld-timeout milli parse (pos 1_000_000_000) (pos 300_000_000_000) (omega arith)
      (pos 1_000_000_000) idle first (second_call ∷ []) (omega arith)
      (
        held_at (pos 2_000_000_000) idle run_held.0,
        omega arith,
        (held_at (pos 3_000_000_000) once run_held.1, omega arith, tt),
      )
