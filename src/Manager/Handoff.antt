-- ===== src/Manager/Handoff.antt =====
-- From the webhook to the controller: a pod that the webhook patched, when the controller reads it.
use kompakt.Prelude.{String, ◌≡◌, refl, true, Option, some}
use kompakt.Int.{ℤ}
use kompakt.Dict.{lookup}
use kompakt.Kube.{Fetched, found, not_found, fetch_error, Quantity, Pod}
use kompakt.Api.{PackingProfile}
use kompakt.Controller.Gates.{label_profile, has_kompakt_gates, release_gates}
use kompakt.Controller.Reconcile.{Cluster, Reconciler, reconcile, reconcile_pod, reconcile_labelled}
use kompakt.Controller.Reconcile.Progress.{IsProgress, release-IsProgress, reconcile-IsProgress}
use kompakt.Webhook.{gates_for, inject, patched, handle}
use kompakt.Webhook.Gating.{handle_patched}

module _ (milli_value : Quantity → ℤ) (parse_duration : String → Option ℤ) where
  -- A call for a gated pod with a label makes progress unless its profile cannot be read.
  labelled-IsProgress :
      (c : Cluster) (r : Reconciler) (pod : Pod) (name : String)
      → c.pod ≡ found pod
      → has_kompakt_gates pod ≡ true
      → lookup label_profile pod.labels ≡ some name
      → ((c.profiles name ≡ fetch_error) → ⊥)
      → IsProgress c (reconcile milli_value parse_duration c r)
  unfolding reconcile reconcile_pod reconcile_labelled release_gates
  labelled-IsProgress c r pod name e gated labelled readable = go (c.profiles name) refl
    where
      go :
          (answer : Fetched PackingProfile)
          → c.profiles name ≡ answer
          → IsProgress c (reconcile milli_value parse_duration c r)
      go (found profile) known =
          reconcile-IsProgress milli_value parse_duration c r pod name profile e gated labelled
            known
      go not_found known =
          rw (e, gated, labelled, known)
            (release-IsProgress milli_value parse_duration c r pod "" "profile_not_found")
      go fetch_error known = absurd (readable known)

  -- The pod that the webhook sends back for a request is one that the controller never leaves waiting
  -- unattended: at every call that reads that pod, whatever the cluster and the ledger then are, and
  -- even if its profile was deleted in between, the controller either asks for another call or sends
  -- the pod without any gate of the program's. Only a call that fails to read the profile is
  -- excepted, which returns an error.
  pub handle-IsProgress :
      (decode : String → Option Pod) (encode : Pod → Option String)
      (get_profile : String → Option PackingProfile) (trace_id raw raw' out : String)
      → handle decode encode get_profile trace_id raw ≡ patched raw' out
      → (pod' : Pod) × (name : String) × (encode pod' ≡ some out)
        × (lookup label_profile pod'.labels ≡ some name)
        × ((c : Cluster) (r : Reconciler)
            → c.pod ≡ found pod'
            → ((c.profiles name ≡ fetch_error) → ⊥)
            → IsProgress c (reconcile milli_value parse_duration c r))
  unfolding inject
  handle-IsProgress decode encode get_profile trace_id raw raw' out h =
      let (pod, name, profile, _, _, labelled, _, encoded, gated) =
        handle_patched decode encode get_profile trace_id raw raw' out h in
      let pod' = inject pod trace_id (gates_for profile.spec.rules) in
      (
        pod',
        name,
        encoded,
        labelled,
        (λ c r e readable. labelled-IsProgress c r pod' name e gated labelled readable),
      )
