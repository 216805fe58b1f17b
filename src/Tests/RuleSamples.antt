-- ===== src/Tests/RuleSamples.antt =====
-- A pod, a profile and ledgers for the runs of the rules, the controller and the webhook.
use kompakt.Prelude.{◌==◌, none, some, [], ◌∷◌, if◌then◌else◌}
use kompakt.Int.{ℤ, pos}
use kompakt.Kube.{Quantity, Pod}
use kompakt.Api.{PackingProfile}
use kompakt.Ledger.{Ledger}
use kompakt.Tests.LedgerSamples.{node}

-- The three quantities of the samples, in thousandths.
abbrev pub milli : Quantity → ℤ
milli q = if q == "500m" then pos 500 else if q == "1" then pos 1000 else pos 4000

abbrev pub sample_pod : Pod
sample_pod = record {
  name = "train";
  namespace = "ml";
  labels = ("packer.kompakt.io/packing-profile", "gpu") ∷ [];
  annotations = ("kompakt.io/held-by", "WaitForNodeReady") ∷ ("team", "ml") ∷ [];
  creation = some (pos 1_000_000_000);
  scheduling_gates =
      "kompakt.io/wait-for-node-ready" ∷ "other.io/quota" ∷ "kompakt.io/wait-for-workload-packing"
      ∷ [];
  node_selector = ("pool", "gpu") ∷ [];
  tolerations = (record { key = "pool"; operator = "Equal"; value = "gpu"; effect = "" }) ∷ [];
  containers = (record { requests = ("cpu", "500m") ∷ ("memory", "1") ∷ [] }) ∷ [];
  affinity = none;
  node_name = "";
  phase = "Pending";
}

-- The pod without gates of the program.
abbrev pub plain_pod : Pod
plain_pod = record sample_pod { scheduling_gates = "other.io/quota" ∷ [] }

abbrev pub sample_profile : PackingProfile
sample_profile = record {
  name = "gpu";
  spec = record {
    demand_source = record {
      kind = "ResourceRequest";
      resources = "cpu" ∷ "memory" ∷ [];
      additional_resources = [];
      annotation = "";
      unit = "";
    };
    capacity_source = record {
      kind = "NodeAllocatable";
      resources = [];
      label = "";
      per_device_count = none;
      node_group_templates = [];
    };
    readiness_signal = record { node_conditions = []; required_labels = [] };
    rules = "WaitForNodeReady" ∷ "NoSuchRule" ∷ "WaitForWorkloadPacking" ∷ [];
    reservation_timeout = "5m";
  };
  status = record {
    active_gates = pos 0;
    inflight_nodes = pos 0;
    active_detectors = [];
    conditions = [];
  };
}

-- One existing node and none on its way.
abbrev pub settled : Ledger
settled = record { nodes = ("big", node 4000 8000 50) ∷ []; inflight = [] }

-- One node on its way and no existing one.
abbrev pub waiting : Ledger
waiting = record { nodes = []; inflight = ("gpu/new", node 2000 4000 0) ∷ [] }
