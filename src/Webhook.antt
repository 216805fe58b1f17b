-- ===== src/Webhook.antt =====
-- internal/webhook/mutating.go: the admission webhook that puts the gates on a pod. The decoder and
-- encoder of JSON, the informer cache behind the resolver of internal/matcher/matcher.go, and the
-- random trace identifier are parameters. Metrics and logging are left out.
pub mod Gating
pub mod Records
use kompakt.Prelude.{
  ℕ, String, ◌==◌, Bool, true, false, Option, none, some, List, [], ◌∷◌, ◌++◌, is_empty,
  if◌then◌else◌,
}
use kompakt.Text.{◌+++◌}
use kompakt.Dict.{Dict, lookup, get_or, insert}
use kompakt.Kube.{Pod}
use kompakt.Api.{PackingProfile}
use kompakt.Controller.Gates.{label_profile, label_exclude, annotation_trace_id}

-- `gateNames`
abbrev pub gate_names : Dict String
gate_names =
    ("WaitForWorkloadPacking", "kompakt.io/wait-for-workload-packing")
    ∷ ("WaitForNodeReady", "kompakt.io/wait-for-node-ready")
    ∷ ("WaitForImagePrePull", "kompakt.io/awaiting-image-prepull")
    ∷ ("WaitForMIGProfile", "kompakt.io/awaiting-mig-reconfig")
    ∷ ("WaitForCoLocation", "kompakt.io/awaiting-colocation")
    ∷ []

-- The loop over the profile's rules; a rule without a gate name is passed over.
unfoldable pub gates_for : List String → List String
unfolding lookup
gates_for [] = []
gates_for (rule ∷ rules) = elim (lookup rule gate_names) [
  | none ↦ gates_for rules
  | some gate ↦ gate ∷ gates_for rules
]

-- The pod that is sent back: the trace identifier noted, the gates behind those that it has.
unfoldable pub inject : Pod → String → List String → Pod
unfolding insert
inject pod trace_id gates = record pod {
  annotations = insert annotation_trace_id trace_id pod.annotations;
  scheduling_gates = pod.scheduling_gates ++ gates;
}

-- `admission.Response`: `patched` has the raw object and the one to patch it to.
pub data Response : Type 0 where
  errored : ℕ → Response
  allowed : String → Response
  denied : String → Response
  patched : String → String → Response

module _ (decode : String → Option Pod) (encode : Pod → Option String)
    (get_profile : String → Option PackingProfile) (trace_id : String) where
  -- `(*ProfileResolver).Resolve`: any error of the reader is an error.
  abbrev pub resolve : String → Option PackingProfile
  resolve name = get_profile name

  -- The end of `Handle`, for a pod whose profile was resolved.
  unfoldable pub handle_resolved : String → Pod → PackingProfile → Response
  unfolding gates_for inject
  handle_resolved raw pod profile =
      let gates = gates_for profile.spec.rules in
      if is_empty gates
      then allowed "no gates to inject"
      else elim (encode (inject pod trace_id gates)) [
        | none ↦ errored 500
        | some out ↦ patched raw out
      ]

  -- `Handle`, for a pod that was decoded.
  -- `%q` puts quotation marks around the name, since the value of a label has no character that it
  -- escapes.
  unfoldable pub handle_pod : String → Pod → Response
  unfolding handle_resolved get_or lookup
  handle_pod raw pod =
      if get_or "" label_exclude pod.labels == "true"
      then allowed "excluded from gating"
      else elim (lookup label_profile pod.labels) [
        | none ↦ allowed "no packing profile label"
        | some profile_name ↦ elim (resolve profile_name) [
          | none ↦ denied ("PackingProfile \"" +++ profile_name +++ "\" not found")
          | some profile ↦ handle_resolved raw pod profile
        ]
      ]

  -- `(*PodGateInjector).Handle`
  unfoldable pub handle : String → Response
  unfolding handle_pod
  handle raw = elim (decode raw) [ none ↦ errored 400 | some pod ↦ handle_pod raw pod ]
