-- ===== src/Webhook/Records.antt =====
-- The metrics of `Handle`, against its response.
use kompakt.Prelude.{
  String, ◌==◌, ◌≡◌, refl, Option, none, some, List, [], ◌∷◌, is_empty, Bool-cases, Option-cases,
  inl, inr, arith, if◌then◌else◌,
}
use kompakt.Int.{ℤ}
use kompakt.Dict.{lookup, get_or}
use kompakt.Kube.{Pod}
use kompakt.Api.{PackingProfile}
use kompakt.Metrics.{Update, increment, observe, webhook_requests_total, webhook_request_duration}
use kompakt.Controller.Gates.{label_profile, label_exclude}
use kompakt.Webhook.{
  gates_for, inject, Response, errored, allowed, denied, patched, resolve, handle_resolved,
  handle_pod, handle,
}

-- The counter of an operation and its duration.
abbrev pub request_updates : ℤ → String → List Update
request_updates elapsed operation =
    increment webhook_requests_total (operation ∷ [])
    ∷ observe webhook_request_duration (operation ∷ []) elapsed
    ∷ []

-- What is told of a response.
abbrev pub told : ℤ → Response → List Update
told elapsed (errored code) = []
told elapsed (allowed reason) = request_updates elapsed "passthrough"
told elapsed (denied reason) = request_updates elapsed "reject"
told elapsed (patched raw' out) = request_updates elapsed "gate"

module _ (decode : String → Option Pod) (encode : Pod → Option String)
    (get_profile : String → Option PackingProfile) (trace_id : String) (elapsed : ℤ) where
  -- The end of `Handle`, for a pod whose profile was resolved.
  unfoldable pub resolved_updates : Pod → PackingProfile → List Update
  unfolding gates_for inject
  resolved_updates pod profile =
      let gates = gates_for profile.spec.rules in
      if is_empty gates
      then request_updates elapsed "passthrough"
      else elim (encode (inject pod trace_id gates)) [
        | none ↦ []
        | some out ↦ request_updates elapsed "gate"
      ]

  -- The metrics of `Handle`, which took `elapsed` up to then.
  unfoldable pub handle_updates : String → List Update
  unfolding resolved_updates get_or lookup
  handle_updates raw = elim (decode raw) [
    | none ↦ []
    | some pod ↦
        if get_or "" label_exclude pod.labels == "true"
        then request_updates elapsed "passthrough"
        else elim (lookup label_profile pod.labels) [
          | none ↦ request_updates elapsed "passthrough"
          | some profile_name ↦ elim (resolve decode encode get_profile trace_id profile_name) [
            | none ↦ request_updates elapsed "reject"
            | some profile ↦ resolved_updates pod profile
          ]
        ]
  ]

  resolved_updates-handle_resolved :
      (raw : String) (pod : Pod) (profile : PackingProfile)
      → resolved_updates pod profile
        ≡ told elapsed (handle_resolved decode encode get_profile trace_id raw pod profile)
  unfolding resolved_updates handle_resolved
  resolved_updates-handle_resolved raw pod profile =
      elim (Bool-cases (is_empty (gates_for profile.spec.rules))) [
        | inl empty ↦ rw empty refl
        | inr full ↦
            elim (Option-cases (encode (inject pod trace_id (gates_for profile.spec.rules)))) [
              | inl e ↦ rw (full, e) refl
              | inr (out, e) ↦ rw (full, e) refl
            ]
      ]

  -- The operation that `Handle` counts is that of its response: a pod that is let through is counted as
  -- passed, one that is denied as rejected, one that is patched as gated; a request that fails is not
  -- counted.
  pub handle_updates-handle :
      (raw : String)
      → handle_updates raw ≡ told elapsed (handle decode encode get_profile trace_id raw)
  unfolding handle_updates handle handle_pod
  handle_updates-handle raw = elim (Option-cases (decode raw)) [
    | inl e ↦ ground arith
    | inr (pod, e) ↦ elim (Bool-cases (get_or "" label_exclude pod.labels == "true")) [
      | inl x ↦ ground arith
      | inr x ↦ elim (Option-cases (lookup label_profile pod.labels)) [
        | inl n ↦ ground arith
        | inr (name, n) ↦ elim (Option-cases (get_profile name)) [
          | inl p ↦ ground arith
          | inr (profile, p) ↦
              let same = resolved_updates-handle_resolved raw pod profile in ground arith
        ]
      ]
    ]
  ]
