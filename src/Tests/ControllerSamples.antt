-- ===== src/Tests/ControllerSamples.antt =====
-- Answers of an API server and a reconciler, for the runs of the controller.
use kompakt.Prelude.{
  String, ◌==◌, ◌≡◌, refl, true, false, Option, some, none, [], ◌∷◌, if◌then◌else◌,
}
use kompakt.Int.{ℤ, pos}
use kompakt.Dict.{lookup}
use kompakt.Kube.{found, Node}
use kompakt.Ledger.{empty}
use kompakt.Controller.Gates.{has_kompakt_gates}
use kompakt.Controller.Sync.{listed}
use kompakt.Controller.Reconcile.{Cluster, Reconciler}
use kompakt.Tests.RuleSamples.{sample_pod, sample_profile}

abbrev pub parse : String → Option ℤ
parse s = if s == "5m" then some (pos 300_000_000_000) else none

abbrev pub big_node : Node
big_node = record {
  name = "big";
  labels = ("pool", "gpu") ∷ [];
  taints = [];
  allocatable = ("cpu", "4") ∷ ("memory", "4") ∷ [];
  conditions = [];
  creation = pos 0;
  deleting = false;
}

-- An API server with one node, at a given time.
abbrev pub cluster_at : ℤ → Cluster
cluster_at now = record {
  pod = found sample_pod;
  profiles = λ name. found sample_profile;
  nodes = listed (big_node ∷ []);
  pods = listed [];
  detections = [];
  labelled = λ name. some (sample_pod ∷ []);
  now = now;
  patch_works = λ pod. true;
}

abbrev pub soon : Cluster
soon = cluster_at (pos 2_000_000_000)

abbrev pub late : Cluster
late = cluster_at (pos 400_000_000_000)

abbrev pub idle : Reconciler
idle = record { ledger = empty; active_detectors = [] }

pub sample-gated : has_kompakt_gates sample_pod ≡ true
unfolding has_kompakt_gates
sample-gated = refl

pub sample-labelled : lookup "packer.kompakt.io/packing-profile" sample_pod.labels ≡ some "gpu"
unfolding lookup
sample-labelled = refl
