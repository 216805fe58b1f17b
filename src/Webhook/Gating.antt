-- ===== src/Webhook/Gating.antt =====
-- internal/webhook/mutating.go: the pods that `Handle` patches, and their gates.
use kompakt.Prelude.{
  String, ◌==◌, ◌≡◌, refl, sym, ◌∙◌, Bool, true, false, not, Option, none, some, List, [], ◌∷◌,
  ◌++◌, any, keep_if, is_empty, All, arith, Bool-cases, Option-cases, inl, inr,
}
use kompakt.Dict.{lookup, get_or}
use kompakt.Dict.Laws.{lookup-All}
use kompakt.Kube.{Pod}
use kompakt.Api.{PackingProfile}
use kompakt.Controller.Gates.{
  label_profile, label_exclude, is_kompakt_gate, has_kompakt_gates, release_gates_with_affinity,
}
use kompakt.Webhook.{gate_names, gates_for, inject, errored, patched, handle_resolved, handle}

gate_names-kompakt :
    (rule gate : String) → lookup rule gate_names ≡ some gate → is_kompakt_gate gate ≡ true
unfolding is_kompakt_gate
gate_names-kompakt rule gate e =
    lookup-All (λ g. is_kompakt_gate g ≡ true) rule gate gate_names
      (refl, (refl, (refl, (refl, (refl, tt))))) e

gates_for-kompakt : (rules : List String) → All (λ g. is_kompakt_gate g ≡ true) (gates_for rules)
unfolding gates_for
gates_for-kompakt [] = tt
gates_for-kompakt (rule ∷ rules) = go (lookup rule gate_names) refl (gates_for-kompakt rules)
  where
    go :
        (o : Option String)
        → lookup rule gate_names ≡ o
        → All (λ g. is_kompakt_gate g ≡ true) (gates_for rules)
        → All
            (λ g. is_kompakt_gate g ≡ true)
            (elim o [ none ↦ gates_for rules | some gate ↦ gate ∷ gates_for rules ])
    go none e rest = rest
    go (some gate) e rest = (gate_names-kompakt rule gate e, rest)

any-append_first :
    (p : String → Bool) (gs hs : List String)
    → All (λ g. p g ≡ true) hs
    → is_empty hs ≡ false
    → any p (gs ++ hs) ≡ true
any-append_first p [] [] h some_gate = cc
any-append_first p [] (g ∷ hs) h some_gate = ground arith
any-append_first p (g ∷ gs) hs h some_gate = ground (arith, any-append_first p gs hs h some_gate)

keep_if-append :
    (p : String → Bool) (gs hs : List String)
    → any p gs ≡ false
    → All (λ g. p g ≡ true) hs
    → keep_if (λ g. not (p g)) (gs ++ hs) ≡ gs
keep_if-append p [] [] none_of h = refl
keep_if-append p [] (g ∷ hs) none_of h = ground (arith, keep_if-append p [] hs refl h.1)
keep_if-append p (g ∷ gs) hs none_of h = ground (arith, keep_if-append p gs hs)

-- Releasing the pod that the webhook made of a pod without gates of the program gives back exactly
-- the gates that the pod had, whatever the profile's rules and the reason of the release.
pub release-inject :
    (pod : Pod) (trace_id node_name reason : String) (rules : List String)
    → has_kompakt_gates pod ≡ false
    → (release_gates_with_affinity
        (inject pod trace_id (gates_for rules))
        node_name
        reason).scheduling_gates
      ≡ pod.scheduling_gates
unfolding release_gates_with_affinity inject has_kompakt_gates
release-inject pod trace_id node_name reason rules clean =
    keep_if-append is_kompakt_gate pod.scheduling_gates (gates_for rules) clean
      (gates_for-kompakt rules)

module _ (decode : String → Option Pod) (encode : Pod → Option String)
    (get_profile : String → Option PackingProfile) (trace_id raw : String) where
  resolved-patched :
      (pod : Pod) (profile : PackingProfile) (raw' out : String)
      → handle_resolved decode encode get_profile trace_id raw pod profile ≡ patched raw' out
      → (is_empty (gates_for profile.spec.rules) ≡ false)
        × (encode (inject pod trace_id (gates_for profile.spec.rules)) ≡ some out)
  unfolding handle_resolved
  resolved-patched pod profile raw' out h =
      elim (Bool-cases (is_empty (gates_for profile.spec.rules))) [
        | inl none_left ↦ absurd (ground arith)
        | inr gates ↦
            elim (Option-cases (encode (inject pod trace_id (gates_for profile.spec.rules)))) [
              | inl lost ↦ absurd (ground arith)
              | inr (o, e) ↦ (gates, ground arith)
            ]
      ]

  inject-gated :
      (pod : Pod) (profile : PackingProfile)
      → is_empty (gates_for profile.spec.rules) ≡ false
      → has_kompakt_gates (inject pod trace_id (gates_for profile.spec.rules)) ≡ true
  unfolding inject has_kompakt_gates
  inject-gated pod profile gates =
      any-append_first is_kompakt_gate pod.scheduling_gates (gates_for profile.spec.rules)
        (gates_for-kompakt profile.spec.rules) gates

  handled :
      (pod : Pod) (name : String) (profile : PackingProfile)
      → decode raw ≡ some pod
      → (get_or "" label_exclude pod.labels == "true") ≡ false
      → lookup label_profile pod.labels ≡ some name
      → get_profile name ≡ some profile
      → handle decode encode get_profile trace_id raw
        ≡ handle_resolved decode encode get_profile trace_id raw pod profile
  unfolding handle
  handled pod name profile e x n p = ground arith

  -- The webhook patches a pod only if the pod decodes, is not excluded, and names a profile that is
  -- known; then the patched pod is the encoding of one that the controller will pick up.
  pub handle_patched :
      (raw' out : String)
      → handle decode encode get_profile trace_id raw ≡ patched raw' out
      → (pod : Pod) × (name : String) × (profile : PackingProfile) × (decode raw ≡ some pod)
        × ((get_or "" label_exclude pod.labels == "true") ≡ false)
        × (lookup label_profile pod.labels ≡ some name)
        × (get_profile name ≡ some profile)
        × (encode (inject pod trace_id (gates_for profile.spec.rules)) ≡ some out)
        × (has_kompakt_gates (inject pod trace_id (gates_for profile.spec.rules)) ≡ true)
  unfolding handle
  handle_patched raw' out h = elim (Option-cases (decode raw)) [
    | inl e ↦ absurd (ground arith)
    | inr (pod, e) ↦ elim (Bool-cases (get_or "" label_exclude pod.labels == "true")) [
      | inl x ↦ absurd (ground arith)
      | inr x ↦ elim (Option-cases (lookup label_profile pod.labels)) [
        | inl n ↦ absurd (ground arith)
        | inr (name, n) ↦ elim (Option-cases (get_profile name)) [
          | inl p ↦ absurd (ground arith)
          | inr (profile, p) ↦
              let (gates, enc) =
                resolved-patched pod profile raw' out
                  (sym (handled pod name profile e x n p) ∙ h) in
              (pod, name, profile, e, x, n, p, enc, inject-gated pod profile gates)
        ]
      ]
    ]
  ]

  -- A pod that is not excluded and whose profile is known and has a rule with a gate is never let
  -- through without its gates: it is patched, or the request fails with status 500.
  pub handle_gates :
      (pod : Pod) (name : String) (profile : PackingProfile)
      → decode raw ≡ some pod
      → (get_or "" label_exclude pod.labels == "true") ≡ false
      → lookup label_profile pod.labels ≡ some name
      → get_profile name ≡ some profile
      → is_empty (gates_for profile.spec.rules) ≡ false
      → handle decode encode get_profile trace_id raw
        ≡ elim (encode (inject pod trace_id (gates_for profile.spec.rules))) [
          | none ↦ errored 500
          | some out ↦ patched raw out
        ]
  unfolding handle
  handle_gates pod name profile e x n p g = ground arith
