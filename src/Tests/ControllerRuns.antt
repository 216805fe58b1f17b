-- ===== src/Tests/ControllerRuns.antt =====
-- The controller at concrete inputs.
use kompakt.Prelude.{
  String, ◌==◌, ◌≡◌, refl, Bool, true, false, ◌&&◌, ◌||◌, some, none, [], ◌∷◌, is_empty,
  if◌then◌else◌,
}
use kompakt.Int.{pos, ◌-ℤ◌, add64, sub64}
use kompakt.Dict.{Dict, lookup, get_or, insert, erase_if}
use kompakt.Kube.{Pod, Requirement, SelectorTerm}
use kompakt.Api.{PackingProfile}
use kompakt.Ledger.{
  Ledger, empty, add_node, clear_nodes, clear_inflight_by_prefix, reserve, snapshot_reservations,
  restore_reservations,
}
use kompakt.Ledger.Fit.{find_fit, find_fit_existing}
use kompakt.Text.{has_prefix}
use kompakt.Rules.{evaluate_node_ready, evaluate_workload_packing}
use kompakt.Rules.Demand.{extract_demand}
use kompakt.Controller.Gates.{
  annotation_reason, annotation_node, annotation_held_by, annotation_priority, has_kompakt_gates,
  required_terms, is_kompakt_gate, release_gates_with_affinity, release_gates,
}
use kompakt.Clock.{time_sub}
use kompakt.Controller.Gates.Released.{occurrences, released_pod}
use kompakt.Controller.Gates.Pinned.{
  allows, own_terms, is_in, is_host, release_gates_with_affinity-allows,
}
use kompakt.Controller.Conditions.{cond_ready, config_issues, condition_is_true}
use kompakt.Controller.Status.{int32, count_gated, report_status}
use kompakt.Controller.Status.Reporting.{no_error, report_status-ready}
use kompakt.Controller.Sync.{apply_usage, pods_usage, sync_nodes, sync_node, sync_ledger}
use kompakt.Controller.Reconcile.{released, is_timed_out, evaluate_rules, decide, reconcile}
use kompakt.Controller.Reconcile.Progress.{IsProgress, reconcile-IsProgress, reconcile_escapes}
use kompakt.Controller.Reconcile.Verdicts.{Passes}
use kompakt.Controller.Reconcile.Capacity.{reconcile_capacity}
use kompakt.Tests.RuleSamples.{milli, sample_pod, sample_profile}
use kompakt.Tests.ControllerSamples.{
  parse, big_node, soon, late, idle, sample-gated, sample-labelled,
}

released_pod_example :
    let pod' = release_gates_with_affinity sample_pod "big" "capacity" in
    (has_kompakt_gates pod' ≡ false)
    × (occurrences "other.io/quota" pod'.scheduling_gates
        ≡ occurrences "other.io/quota" sample_pod.scheduling_gates)
    × (lookup annotation_reason pod'.annotations ≡ some "capacity")
    × (lookup annotation_held_by pod'.annotations ≡ none)
    × (lookup annotation_node pod'.annotations
        ≡ (if "big" == "" then lookup annotation_node sample_pod.annotations else some "big"))
    × (lookup "team" pod'.annotations ≡ lookup "team" sample_pod.annotations)
unfolding is_kompakt_gate
released_pod_example =
    released_pod sample_pod "big" "capacity" "other.io/quota" "team" refl refl refl refl

abbrev in_zone : Requirement
in_zone = record { key = "zone"; operator = "In"; values = "a" ∷ [] }

abbrev zone_term : SelectorTerm
zone_term = record { match_expressions = in_zone ∷ []; match_fields = [] }

-- The labels of the node of the run, and a pod that asks for its zone.
abbrev big_labels : Dict String
big_labels = ("kubernetes.io/hostname", "big") ∷ ("zone", "a") ∷ []

abbrev holds : Requirement → Bool
holds req = if req.operator == "In" then is_in big_labels req.key req.values else false

abbrev zone_pod : Pod
zone_pod = record sample_pod {
  affinity = some (record { node_affinity = some (record { required = some (zone_term ∷ []) }) });
}

release_gates_with_affinity-allows_example :
    let pod' = release_gates_with_affinity zone_pod "big" "capacity" in
    (allows holds holds pod'.affinity ≡ (
      if "big" == ""
      then allows holds holds zone_pod.affinity
      else is_host big_labels "big" && own_terms holds holds (required_terms zone_pod.affinity)))
    × (pod'.node_selector ≡ zone_pod.node_selector)
    × (pod'.tolerations ≡ zone_pod.tolerations)
release_gates_with_affinity-allows_example =
    release_gates_with_affinity-allows holds holds big_labels zone_pod "big" "capacity"
      (λ key values. refl) (refl, tt)

run_pinned :
    let pod_for =
      λ (name : String). (release_gates_with_affinity zone_pod name "capacity").affinity in
    (allows holds holds (pod_for "big") ≡ true) × (allows holds holds (pod_for "small") ≡ false)
unfolding release_gates_with_affinity lookup
run_pinned = (refl, refl)

report_status-ready_example :
    (updated : PackingProfile) × (report_status
        (pos 7)
        sample_profile
        (some "no list")
        (some (sample_pod ∷ []))
        empty
        []
        2
      ≡ some updated)
    × (condition_is_true updated cond_ready
        ≡ (is_empty (config_issues sample_profile.spec) && no_error (some "no list")))
    × (updated.status.active_gates ≡ int32 (count_gated (sample_pod ∷ [])))
report_status-ready_example =
    report_status-ready (pos 7) sample_profile (some "no list") (sample_pod ∷ []) empty [] 2

reconcile-IsProgress_example : IsProgress soon (reconcile milli parse soon idle)
reconcile-IsProgress_example =
    reconcile-IsProgress milli parse soon idle sample_pod "gpu" sample_profile refl sample-gated
      sample-labelled refl

urgent :
    (get_or "" annotation_priority sample_pod.annotations == "high"
      || is_timed_out parse late.now sample_pod sample_profile)
    ≡ true
unfolding get_or lookup is_timed_out time_sub ◌-ℤ◌
urgent = refl

reconcile_escapes_example :
    let done = reconcile milli parse late idle in
    let reason : String =
      if get_or "" annotation_priority sample_pod.annotations == "high"
      then "priority"
      else "timeout" in
    (done.event ≡ some (released reason ""))
    × (done.patch ≡ some (release_gates sample_pod reason))
    × (done.requeue ≡ false)
    × (done.after.ledger
        ≡ (sync_ledger milli sample_profile sample_pod late.nodes late.pods late.detections
            idle.ledger idle.active_detectors).ledger)
reconcile_escapes_example =
    reconcile_escapes milli parse late idle sample_pod "gpu" sample_profile (big_node ∷ []) [] refl
      sample-gated sample-labelled refl refl refl urgent

calm :
    (get_or "" annotation_priority sample_pod.annotations == "high"
      || is_timed_out parse soon.now sample_pod sample_profile)
    ≡ false
unfolding get_or lookup is_timed_out time_sub ◌-ℤ◌
calm = refl

abbrev packed : Ledger
packed = (reconcile milli parse soon idle).after.ledger

-- Both rules release the pod to the node, and each has reserved its demand there.
run_capacity :
    ((reconcile milli parse soon idle).event ≡ some (released "capacity" "big"))
    × (snapshot_reservations packed ≡ ("big", ("cpu", pos 1000) ∷ ("memory", pos 2000) ∷ []) ∷ [])
unfolding reconcile has_kompakt_gates lookup get_or insert erase_if sync_ledger evaluate_rules
    evaluate_node_ready evaluate_workload_packing find_fit find_fit_existing reserve extract_demand
    is_timed_out time_sub ◌-ℤ◌ add64 sub64 snapshot_reservations restore_reservations has_prefix
    decide clear_inflight_by_prefix clear_nodes apply_usage pods_usage sync_nodes sync_node add_node
run_capacity = (refl, refl)

reconcile_capacity_example :
    let done = reconcile milli parse soon idle in
    let synced =
      sync_ledger milli sample_profile sample_pod soon.nodes soon.pods soon.detections idle.ledger
        idle.active_detectors in
    (Passes milli sample_pod sample_profile sample_profile.spec.rules "" synced.ledger "big" packed
      → (done.event ≡ some (released "capacity" "big"))
        × (done.patch ≡ some (release_gates_with_affinity sample_pod "big" "capacity"))
        × (done.after.ledger ≡ packed))
    × (done.event ≡ some (released "capacity" "big")
        → Passes milli sample_pod sample_profile sample_profile.spec.rules "" synced.ledger "big"
            done.after.ledger)
reconcile_capacity_example =
    reconcile_capacity milli parse soon idle sample_pod "gpu" sample_profile (big_node ∷ []) [] refl
      sample-gated sample-labelled refl refl refl calm "big" packed
