-- ===== src/Manager/Main.antt =====
-- cmd/manager/main.go: `main` as a whole, over the answers of the libraries' calls. The schemes, the
-- logger, the clients and the event recorder, which `main` only passes on, are left out.
use kompakt.Prelude.{
  ℕ, String, Bool, true, false, not, Option, none, some, List, [], ◌∷◌, ◌++◌, if◌then◌else◌,
}
use kompakt.Int.{ℤ}
use kompakt.Inflight.ClusterAutoscaler
use kompakt.Inflight.GoatScaler
use kompakt.Inflight.NotReady
use kompakt.Certgen.Store.{Program, done, ◌>>=◌}
use kompakt.Certgen.Generate.{X509, Draws}
use kompakt.Manager.{cert_dir, boot}

-- Whether each call of a library in `main` works: `GetConfigOrDie`, the client, the manager, what is added to the manager,
-- and `Start`.
pub record Answers : Type 0 where
  pub config : Bool
  pub typed_client : Bool
  pub manager : Bool
  pub healthz_check : Bool
  pub readyz_check : Bool
  pub runnable : Bool
  pub controller : Bool
  pub start : Bool

-- `ctrl.Options`
pub record Options : Type 0 where
  pub webhook_port : ℕ
  pub webhook_cert_dir : String
  pub metrics_address : String
  pub probe_address : String
  pub leader_election : Bool
  pub leader_election_id : String

abbrev pub options : Bool → Options
options leader_elect = record {
  webhook_port = 9443;
  webhook_cert_dir = cert_dir;
  metrics_address = ":8080";
  probe_address = ":8081";
  leader_election = leader_elect;
  leader_election_id = "kompakt.leader.election";
}

-- What the manager is given: probes by their names, the certificate provisioner as a runnable, the
-- webhook by its path, and the reconciler by the names of its detectors.
pub data Registration : Type 0 where
  healthz : String → Registration
  readyz : String → Registration
  provisioner : Registration
  webhook : String → Registration
  reconciler : List String → Registration

-- How `main` ends: the message of an exit with status 1, which is empty where the library exits, the manager's options if it was made, what it
-- was given, and whether `Start` was called.
pub record Ending : Type 0 where
  pub failure : Option String
  pub manager : Option Options
  pub registrations : List Registration
  pub starts : Bool

abbrev exits : String → Option Options → List Registration → Ending
exits message manager registrations = record {
  failure = some message;
  manager = manager;
  registrations = registrations;
  starts = false;
}

abbrev probes : List Registration
probes = healthz "healthz" ∷ readyz "readyz" ∷ []

abbrev serving : List Registration
serving = probes ++ provisioner ∷ webhook "/mutate-v1-pod" ∷ []

-- The detectors, in their order.
abbrev pub detector_names : List String
detector_names =
    ClusterAutoscaler.detector_name ∷ GoatScaler.detector_name ∷ NotReady.detector_name ∷ []

abbrev complete : List Registration
complete = serving ++ reconciler detector_names ∷ []

-- `main` from the manager on.
unfoldable pub run_manager : Answers → Bool → Ending
run_manager a leader_elect =
    let made = some (options leader_elect) in
    if not a.manager
    then exits "unable to create manager" none []
    else if not a.healthz_check
    then exits "unable to set up health check" made []
    else if not a.readyz_check
    then exits "unable to set up ready check" made (healthz "healthz" ∷ [])
    else if not a.runnable
    then exits "unable to register cert provisioner" made probes
    else if not a.controller
    then exits "unable to set up controller" made serving
    else record {
      failure = if a.start then none else some "manager exited with error";
      manager = made;
      registrations = complete;
      starts = true;
    }

-- `main` once the certificates are provisioned, or are not.
abbrev pub go_on : {Pem : Type 0} → Answers → Bool → Bool → Program Pem Ending
go_on a leader_elect provisioned = done (
    if provisioned
    then run_manager a leader_elect
    else exits "unable to provision webhook certs" none [])

-- `main`
unfoldable pub main :
    {Key Der Pem : Type 0}
    → X509 Key Der Pem
    → Answers
    → Bool
    → Option String
    → String
    → ℤ
    → Draws Key
    → Program Pem Ending
unfolding boot run_manager
main x a leader_elect account variable now draws =
    if not a.config
    then done (exits "" none [])
    else if a.typed_client
    then boot x account variable now draws >>= go_on a leader_elect
    else done (exits "unable to create typed client" none [])
