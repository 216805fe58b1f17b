-- ===== src/Manager.antt =====
-- cmd/manager/main.go: the start up to the manager and what the detectors are given. `main` as a whole
-- is in Manager/Main.
pub mod Boot
pub mod Announced
pub mod Fallback
pub mod Handoff
pub mod Main
pub mod Start
use kompakt.Prelude.{String, Bool, true, false, Option, none, some, List, [], ◌∷◌}
use kompakt.Int.{ℤ, pos}
use kompakt.Dict.{Dict}
use kompakt.Kube.{Quantity, Node}
use kompakt.Inflight.{InflightNode}
use kompakt.Inflight.ClusterAutoscaler
use kompakt.Inflight.GoatScaler.{Event}
use kompakt.Inflight.GoatScaler
use kompakt.Inflight.GoatScaler.Message.{parse_provision_node_message}
use kompakt.Inflight.NotReady
use kompakt.Controller.Sync.{Detection}
use kompakt.Certgen.Store.{Program, done, ◌>>=◌}
use kompakt.Certgen.Generate.{X509, Draws}
use kompakt.Certgen.Provision.{Config, Failure, ensure_certs, detect_namespace}

-- `certDir`
abbrev pub cert_dir : String
cert_dir = "/tmp/k8s-webhook-server/serving-certs"

-- The configuration of the certificate provisioner, with what `DetectNamespace` reads.
abbrev pub cert_config : Option String → String → Config
cert_config account variable = record {
  namespace = detect_namespace account variable;
  service_name = "kompakt-controller";
  secret_name = "kompakt-webhook-certs";
  webhook_config_name = "kompakt-webhook";
  cert_dir = cert_dir;
}

-- The part of `main` up to the manager: whether the manager is made, or the program exits.
unfoldable pub boot :
    {Key Der Pem : Type 0}
    → X509 Key Der Pem
    → Option String
    → String
    → ℤ
    → Draws Key
    → Program Pem Bool
unfolding ensure_certs detect_namespace
boot x account variable now draws =
    ensure_certs x (cert_config account variable) now draws >>= λ err. elim err [
      | none ↦ done true
      | some failure ↦ done false
    ]

-- What the API server has for the detectors: the autoscaler's ConfigMap, the events by the field
-- selector and without it, and the nodes; `none` where it cannot be read.
pub record Signals : Type 0 where
  pub status : Option (Dict String)
  pub events : Option (List Event)
  pub unfiltered : Option (List Event)
  pub nodes : Option (List Node)

-- What the detectors of the reconciler find, in the order of `main`. The maximal age of the events is
-- left unset.
unfoldable pub detections : (Quantity → ℤ) → ℤ → Bool → Signals → List Detection
unfolding ClusterAutoscaler.detect GoatScaler.detect NotReady.detect
detections milli_value now flag s =
    (record {
      name = ClusterAutoscaler.detector_name;
      found = some (ClusterAutoscaler.detect s.status);
    })
    ∷ (record {
      name = GoatScaler.detector_name;
      found =
          some
            (GoatScaler.detect parse_provision_node_message now (pos 0) s.events s.unfiltered
              flag).0;
    })
    ∷ (record {
      name = NotReady.detector_name;
      found = some (NotReady.detect milli_value now s.nodes);
    })
    ∷ []
