-- ===== src/Lib.antt =====
-- Kompakt holds new pods by scheduling gates until a node has room for them.
--
-- The program's parts. The admission webhook (internal/webhook) puts one gate for each rule of the
-- pod's PackingProfile (api/v1alpha1) on a pod. The reconciler (internal/controller) looks at each gated
-- pod every second: it rebuilds the node ledger (internal/ledger) from the cluster and from what the
-- detectors of in-flight nodes (internal/inflight) find, evaluates the profile's rules (internal/rules)
-- on it, which reserve room there, and releases the pod's gates or holds it. It reports in the
-- profile's status. Before the manager starts, and every twelve hours after, the certificate provisioner
-- (internal/certgen) sees to the webhook's certificate.
--
-- The files. Prelude passes on the names of the libraries and has the helpers on lists and tests; Int is
-- Go's int64 (`add64` and `sub64` wrap around), Text and Strconv what the program uses of Go's strings and
-- strconv (Text/Laws has the lemmas on strings), Regex Go's regular expressions as far as the program
-- uses them (Regex/Words and Regex/Sound are proofs), Dict a Go map, Clock Go's times, and Kube the
-- fields of the Kubernetes objects that the program uses.
--   Api         api/v1alpha1/packingprofile_types.go
--   Scheduling  internal/scheduling/tolerations.go
--   Ledger      internal/ledger/ledger.go; `NodeLedger` is `Ledger`, its methods have their names in snake
--               case; Ledger/Fit has `FindFit`, `FindFitExisting` and `nodeMatchesConstraints`. Its other
--               children are proofs: Reserving, Releasing, BestFit and Choice (which node is chosen), Sure (a
--               chosen node can be reserved), Carrying (snapshots), Isolation (profiles), WellFormed,
--               Slack and Order (the orders in which Go ranges over maps).
--   Rules       internal/rules; Rules/Demand has demand.go, Rules the two `Evaluate` methods.
--               Rules/Accounts has proofs on the row of reservations that rules make.
--   Controller  internal/controller/packingprofile_controller.go; Gates (hasKompaktGates, releaseGates,
--               annotatePod), Conditions (setCondition and the conditions), Status (updateProfileStatus),
--               Templates (findMatchingTemplate, findTemplateForPod), Sync (syncLedger), Reconcile,
--               Records (recordRelease, recordHold, the metrics, warnProfileMisconfig, the event filter).
--               The children of Sync and Reconcile are proofs: Sync/Carried, Bare, Standing, Lasting
--               and Expected and Reconcile/Accounts, Home, Lasting and Holding are those on reservations;
--               Gates/Pinned is on the nodes that a released pod may run on.
--   Webhook     internal/webhook/mutating.go and internal/matcher/matcher.go; Records has the metrics.
--   Inflight    internal/inflight; a child for each detector. GoatScaler/Message has
--               parseProvisionNodeMessage and its expression; ClusterAutoscaler/Printed, with Health,
--               and GoatScaler/Message/Printed are proofs on texts of the format that a detector
--               reads, NotReady/Window on the times that isNeverReady compares.
--   Certgen     internal/certgen/provisioner.go; Store (the calls, and what they do), Generate
--               (GenerateCerts), Valid (certsValid), Provision (EnsureCerts and what it calls, Start,
--               ReadyzCheck, DetectNamespace). Its other children are proofs: Steps and Provisioned (what
--               is left after EnsureCerts), Parts and Lifetime (how long certificates are valid), Ready
--               (the readiness probe), Idle and Stale (the ticks of Start), Owned and Lasting (the secret and the
--               probe over many runs), Race (two replicas).
--   Manager     cmd/manager/main.go: the start and the detectors; Manager/Main has `main` itself. Its other
--               children are proofs on components together: Boot and Start (the start on a new
--               cluster), Fallback (detectors), Announced (from an event to the ledger), Handoff
--               (from the webhook to the controller).
--   Metrics     internal/metrics/metrics.go; Accepted has proofs on the updates of Controller/Records and
--               Webhook/Records.
--   Tests       runs of the definitions and of the theorems at concrete inputs.
--
-- How the code is modelled. A pointer to a structure that a method changes is a state that the function
-- takes and returns. A map is an association list whose order is the order of iteration, so a theorem
-- for all lists holds for each order that Go may take; a nil map is an empty one. The ledger's mutex is
-- left out, since each method holds it for its whole body, and the reconciler runs one call at a time.
-- An error is `none`, or a constructor of the result. A call of the reconciler takes the answers of
-- the API server as a `Cluster` and returns what it sends. The loops are recursion on the lists that
-- they range over. There are two fuels. `decimal` in Controller/Conditions, which prints a number, gets
-- the number and one more, and each step divides the number by ten. Certgen/Valid computes with
-- float64 numbers below 2 ^ 128; the search for the bits to be rounded has fuel 128, and each step halves
-- the number.
--
-- The certificate provisioner is a program over its calls: each call waits for its answer. A run gives
-- each call a fate: it works, it fails and does nothing, it takes effect and its answer is lost, or,
-- where it writes a file, it fails and leaves any content. The API server keeps a version with each object
-- and refuses an update that names another one. A run of two replicas is a sequence of turns, each of which makes one call.
--
-- Parameters. `(*resource.Quantity).MilliValue`, `time.ParseDuration`, the JSON codec, whether the calls of
-- controller-runtime in cmd/manager work, the lists that the API server returns and the clock are not code
-- of the repository: definitions take them as arguments, and theorems assume nothing of them but what they say of
-- their calls. How a scheduler reads a requirement is a parameter of Gates/Pinned, which assumes of it the
-- documented meaning of the operator `In`. The
-- packages crypto/x509, crypto/tls and encoding/pem are the record `X509`; the theorems on the
-- lifetime of certificates and on the readiness probe assume `IsX509`, what their documentation says of
-- a certificate that was created and of a block that was encoded.
--
-- Not modelled: log lines; the help texts and buckets of the metrics; the schemes, logger and clients of
-- cmd/manager; generated deep copies; the time between the calls of one run of the provisioner, whose readings of the clock are arguments.
pub mod Prelude
pub mod Int
pub mod Text
pub mod Regex
pub mod Dict
pub mod Clock
pub mod Metrics
pub mod Kube
pub mod Api
pub mod Scheduling
pub mod Ledger
pub mod Rules
pub mod Inflight
pub mod Controller
pub mod Webhook
pub mod Certgen
pub mod Manager
pub mod Tests
pub mod Strconv
