-- ===== src/Controller/Records.antt =====
-- What the reconciler tells: the events and metrics of `recordRelease` and `recordHold`, the gauges of
-- `syncLedger`, the warnings of `warnProfileMisconfig` with `templateIdentifiers`, and the filter of
-- `SetupWithManager`. None of it is read again by the program.
pub mod Warnings
pub mod Counted
use kompakt.Prelude.{
  String, ◌==◌, Bool, true, false, not, ◌&&◌, Option, none, some, List, [], ◌∷◌, ◌++◌, map, any,
  is_empty, length, if◌then◌else◌,
}
use kompakt.Int.{ℤ, pos}
use kompakt.Clock.{time_sub}
use kompakt.Text.{◌+++◌}
use kompakt.Dict.{get_or, lookup}
use kompakt.Metrics.{
  Update, increment, observe, set_gauge, gate_releases_total, gate_hold_duration, ledger_nodes,
  ledger_inflight_nodes, ledger_allocatable_millicores, ledger_allocatable_memory_bytes,
  rule_evaluations_total, rule_evaluation_duration,
}
use kompakt.Kube.{Quantity, Pod}
use kompakt.Api.{Spec, NodeGroupTemplate, PackingProfile}
use kompakt.Rules.{decided, failed, registry}
use kompakt.Controller.Sync.{Detection}
use kompakt.Ledger.{Ledger, snapshot}
use kompakt.Controller.Gates.{has_kompakt_gates}

-- An event of the recorder: reason and message; its type is Normal.
pub record Notice : Type 0 where
  pub reason : String
  pub message : String

-- `recordRelease`
unfoldable pub record_release : ℤ → Pod → String → String → String → List Update × Notice
unfolding time_sub
record_release now pod profile_name reason target_node = (
  increment gate_releases_total (profile_name ∷ reason ∷ []) ∷ elim pod.creation [
    | none ↦ []
    | some created ↦
        observe gate_hold_duration (profile_name ∷ reason ∷ []) (time_sub now created) ∷ []
  ],
  record {
    reason = "GateReleased";
    message =
        "gate released, reason="
        +++ reason
        +++ ", profile="
        +++ profile_name
        +++ (if not (target_node == "") then ", targetNode=" +++ target_node else "");
  },
)

-- `recordHold`
unfoldable pub record_hold : String → String → Notice
record_hold profile_name rule_name = record {
  reason = "GateHeld";
  message = "gate held by rule " +++ rule_name +++ ", profile=" +++ profile_name;
}

-- The gauges that `syncLedger` sets. The gauge of bytes gets thousandths of bytes, as the ledger has
-- them.
unfoldable pub ledger_gauges : Ledger → List Update
unfolding get_or
ledger_gauges l =
    let s = snapshot l in
    set_gauge ledger_nodes [] (pos s.node_count)
    ∷ set_gauge ledger_allocatable_millicores [] (get_or (pos 0) "cpu" s.total_allocatable)
    ∷ set_gauge ledger_allocatable_memory_bytes [] (get_or (pos 0) "memory" s.total_allocatable)
    ∷ []

-- One warning, where its test holds.
abbrev warn : Bool → String → List String
warn test message = if test then message ∷ [] else []

-- `warnProfileMisconfig`
unfoldable pub warn_profile_misconfig : Spec → List String
warn_profile_misconfig spec =
    let ds = spec.demand_source in
    let cs = spec.capacity_source in
    warn (ds.kind == "ResourceRequest" && is_empty ds.resources)
      "demandSource.type=ResourceRequest but resources list is empty, all pods will have zero demand"
    ++ warn (ds.kind == "Annotation" && ds.annotation == "")
        "demandSource.type=Annotation but annotation field is empty, all pods will have zero demand"
    ++ warn (cs.kind == "NodeLabel" && cs.label == "")
        "capacitySource.type=NodeLabel but label field is empty"
    ++ warn
        (any (λ rule. rule == "WaitForNodeReady") spec.rules && is_empty cs.node_group_templates)
        "WaitForNodeReady rule configured but no nodeGroupTemplates defined, inflight nodes will have unknown capacity"

-- `templateIdentifiers`
unfoldable pub template_identifiers : List NodeGroupTemplate → List String
template_identifiers templates =
    map
      (λ (t : NodeGroupTemplate).
        if not (t.instance_type == "")
        then "instanceType=" +++ t.instance_type
        else if not (t.name_prefix == "")
        then "namePrefix=" +++ t.name_prefix
        else "<empty>")
      templates

-- The event filter; an object that is no pod is `none`.
unfoldable pub event_filter : Option Pod → Bool
unfolding has_kompakt_gates
event_filter none = false
event_filter (some pod) = has_kompakt_gates pod

-- The gauges that the loop over the detectors sets: one for each detector up to the one that found
-- nodes, unless it failed.
unfoldable pub detector_gauges : List Detection → List Update
detector_gauges [] = []
detector_gauges (d ∷ ds) = elim d.found [
  | none ↦ detector_gauges ds
  | some nodes ↦
      set_gauge ledger_inflight_nodes (d.name ∷ []) (pos (length nodes))
      ∷ elim nodes [ [] ↦ detector_gauges ds | _ ∷ _ ↦ [] ]
]

module _ (milli_value : Quantity → ℤ) (pod : Pod) (profile : PackingProfile)
    (took : String → ℤ) where
  -- The metrics of the loop over the rules; `took` is how long the evaluation of a rule took.
  unfoldable pub rule_updates : List String → Ledger → List Update
  unfolding lookup
  rule_updates [] l = []
  rule_updates (name ∷ names) l = elim (lookup name (registry milli_value)) [
    | none ↦ rule_updates names l
    | some rule ↦
        observe rule_evaluation_duration (name ∷ []) (took name) ∷ elim (rule pod l profile).0 [
          | failed ↦ increment rule_evaluations_total (name ∷ "error" ∷ []) ∷ []
          | decided release node_name ↦ elim release [
            | false ↦ increment rule_evaluations_total (name ∷ "hold" ∷ []) ∷ []
            | true ↦
                increment rule_evaluations_total (name ∷ "release" ∷ [])
                ∷ rule_updates names (rule pod l profile).1
          ]
        ]
  ]
