-- ===== src/Tests/InflightRuns.antt =====
-- The detectors and what the controller makes of their nodes, at concrete inputs.
use kompakt.Prelude.{String, ◌≡◌, refl, false, Option, some, none, List, [], ◌∷◌, map}
use kompakt.Int.{pos, sub64}
use kompakt.Dict.{lookup, get_or, missing}
use kompakt.Kube.{Node}
use kompakt.Api.{NodeGroupTemplate}
use kompakt.Ledger.Fit.{node_matches_constraints}
use kompakt.Rules.{extract_constraints}
use kompakt.Inflight.ClusterAutoscaler.{parse_ca_status}
use kompakt.Inflight.GoatScaler.{Event, Provision, event_loop}
use kompakt.Inflight.GoatScaler.Events.{AreDistinct, named, provisioned, event_loop-exact}
use kompakt.Controller.Templates.{find_template_for_pod}
use kompakt.Controller.Templates.Matching.{first_template, entry_of, find_template_for_pod-eq}
use kompakt.Controller.Sync.{listed, sync_ledger, sync_nodes, cleared}
use kompakt.Controller.Sync.Arriving.{sync_nodes-cleared}
use kompakt.Controller.Sync.Carried.{rebuilt, sync_ledger-restored}
use kompakt.Ledger.Carrying.{carried, or_else, restored}
use kompakt.Ledger.WellFormed.{IsWellFormed}
use kompakt.Tests.RuleSamples.{milli, sample_pod, sample_profile, settled, waiting}

run_ca :
    map
      (λ n. n.name)
      (parse_ca_status
        "Name: pool\n  Health: ready=1, cloudProviderTarget=3\nName: other\nHealth: ready=2")
    ≡ "pool-pending-0" ∷ "pool-pending-1" ∷ []
unfolding parse_ca_status sub64
run_ca = refl

abbrev event : String → String → String → Event
event component reason message = record {
  component = component;
  reason = reason;
  message = message;
  last_timestamp = some (pos 900);
  creation = none;
}

-- The messages of the sample events are names.
abbrev read : String → Option Provision
read message = some (record { node_name = message; zone = "a"; instance_type = "gn6i" })

abbrev events : List Event
events =
    event "GOATScaler" "ProvisionNode" "task-1"
    ∷ event "scheduler" "ProvisionNode" "task-2"
    ∷ event "GOATScaler" "ProvisionNode" "task-1"
    ∷ event "GOATScaler" "ProvisionNode" "task-3"
    ∷ []

event_loop-exact_example :
    let nodes = (event_loop read (pos 100) events [] false).0 in
    AreDistinct nodes × (named "task-1" nodes ≡ provisioned read (pos 100) "task-1" events)
event_loop-exact_example = event_loop-exact read (pos 100) events false "task-1"

run_events :
    map (λ n. n.name) (event_loop read (pos 100) events [] false).0 ≡ "task-1" ∷ "task-3" ∷ []
unfolding event_loop
run_events = refl

abbrev gpu_template : NodeGroupTemplate
gpu_template = record {
  name_prefix = "gpu-";
  instance_type = "";
  allocatable = ("cpu", pos 8000) ∷ [];
  labels = ("pool", "gpu") ∷ [];
  taints = (record { key = "pool"; value = "gpu"; effect = "NoSchedule" }) ∷ [];
}

abbrev templates : List NodeGroupTemplate
templates = (record gpu_template { labels = [] }) ∷ gpu_template ∷ []

find_template_for_pod-eq_example :
    find_template_for_pod sample_pod templates
    ≡ first_template
        (λ t. node_matches_constraints (entry_of [] t) (extract_constraints sample_pod))
        templates
find_template_for_pod-eq_example = find_template_for_pod-eq [] sample_pod templates

run_template : find_template_for_pod sample_pod templates ≡ some gpu_template
unfolding find_template_for_pod get_or
run_template = refl

-- The node that the entry of `waiting` was expected to become.
abbrev arrived : Node
arrived = record {
  name = "node-7";
  labels = ("goatscaler.io/provision-task-id", "new") ∷ [];
  taints = [];
  allocatable = ("cpu", "4") ∷ ("memory", "4") ∷ [];
  conditions = [];
  creation = pos 0;
  deleting = false;
}

sync_nodes-cleared_example :
    (sync_nodes milli sample_profile (arrived ∷ []) (cleared sample_profile waiting)).inflight
    ≡ (cleared sample_profile waiting).inflight
sync_nodes-cleared_example = sync_nodes-cleared milli sample_profile (arrived ∷ []) waiting

settled-IsWellFormed : IsWellFormed settled
unfolding missing
settled-IsWellFormed = record { nodes = (refl, tt); inflight = tt }

abbrev listed_nodes : List Node
listed_nodes = (record arrived { name = "big" }) ∷ []

sync_ledger-restored_example :
    let kept =
      or_else (carried (lookup "big" settled.inflight)) (carried (lookup "big" settled.nodes)) in
    let l' =
      (sync_ledger milli sample_profile sample_pod
        (listed listed_nodes)
        (listed [])
        []
        settled
        []).ledger in
    let fresh = rebuilt milli sample_profile sample_pod listed_nodes [] [] settled in
    (lookup "big" l'.nodes ≡ restored kept (lookup "big" fresh.nodes))
    × (lookup "big" l'.inflight ≡ restored kept (lookup "big" fresh.inflight))
sync_ledger-restored_example =
    sync_ledger-restored milli sample_profile sample_pod listed_nodes [] [] settled [] "big"
      settled-IsWellFormed
