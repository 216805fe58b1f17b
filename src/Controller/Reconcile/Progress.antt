-- ===== src/Controller/Reconcile/Progress.antt =====
-- `Reconcile`: what a call for a gated pod comes to, and the calls that evaluate no rule.
use kompakt.Prelude.{
  String, ◌==◌, ◌≡◌, refl, Bool, true, false, not, ◌||◌, ◌⊎◌, Option, none, some, List, Bool-cases,
  Option-cases, inl, inr, arith, if◌then◌else◌,
}
use kompakt.Int.{ℤ}
use kompakt.Dict.{Dict, lookup, get_or}
use kompakt.Kube.{found, Quantity, Pod, Node}
use kompakt.Api.{PackingProfile}
use kompakt.Ledger.{Ledger}
use kompakt.Controller.Gates.{
  label_profile, annotation_priority, has_kompakt_gates, release_gates_with_affinity, release_gates,
}
use kompakt.Controller.Gates.Released.{release_gates-kompakt}
use kompakt.Controller.Sync.{listed, Detection, Synced, first_detection, sync_detected, sync_ledger}
use kompakt.Controller.Reconcile.{
  Cluster, Reconciler, Reconciled, released, Verdict, all_release, held_by, rule_error,
  is_timed_out, release, retry, settle_verdict, decide, report, reconcile_profile,
  reconcile_labelled, reconcile_pod, reconcile,
}

-- The call asks for another one, or sends a pod that has no gate of the program's and fails only
-- if the patch does.
abbrev pub IsProgress : Cluster → Reconciled → Type 0
IsProgress c done =
    ((done.requeue ≡ true) × (done.fails ≡ false))
    ⊎ ((pod' : Pod) × (done.patch ≡ some pod')
        × (has_kompakt_gates pod' ≡ false)
        × (done.fails ≡ not (c.patch_works pod')))

module _ (milli_value : Quantity → ℤ) (parse_duration : String → Option ℤ) (c : Cluster) where
  pub release-IsProgress :
      (r : Reconciler) (pod : Pod) (node_name reason : String)
      → IsProgress c
          (release c r (release_gates_with_affinity pod node_name reason) reason node_name)
  release-IsProgress r pod node_name reason = inr (
    release_gates_with_affinity pod node_name reason,
    refl,
    release_gates-kompakt pod node_name reason,
    refl,
  )

  settle_verdict-IsProgress :
      (r : Reconciler) (pod : Pod) (v : Verdict) → IsProgress c (settle_verdict c r pod v)
  unfolding settle_verdict
  settle_verdict-IsProgress r pod (all_release t) = release-IsProgress r pod t "capacity"
  settle_verdict-IsProgress r pod (held_by rule) = inl (refl, refl)
  settle_verdict-IsProgress r pod rule_error = inl (refl, refl)

  if-IsProgress :
      (b : Bool) (x y : Reconciled)
      → IsProgress c x
      → IsProgress c y
      → IsProgress c (if b then x else y)
  if-IsProgress true x y p q = p
  if-IsProgress false x y p q = q

  decide-IsProgress :
      (pod : Pod) (profile : PackingProfile) (r : Reconciler)
      → IsProgress c (decide milli_value parse_duration c pod profile r)
  unfolding decide release_gates
  decide-IsProgress pod profile r =
      if-IsProgress (get_or "" annotation_priority pod.annotations == "high") _ _
        (release-IsProgress r pod "" "priority")
        (if-IsProgress (is_timed_out parse_duration c.now pod profile) _ _
          (release-IsProgress r pod "" "timeout") (settle_verdict-IsProgress _ pod _))

  profile-IsProgress :
      (pod : Pod) (profile : PackingProfile) (r : Reconciler)
      → IsProgress c (reconcile_profile milli_value parse_duration c pod profile r)
  unfolding reconcile_profile report
  profile-IsProgress pod profile r =
      go synced.error
        (record { ledger = synced.ledger; active_detectors = synced.active_detectors })
    where
      synced : Synced
      synced =
          sync_ledger milli_value profile pod c.nodes c.pods c.detections r.ledger
            r.active_detectors

      go :
          (o : Option String) (r' : Reconciler)
          → IsProgress c (
              report c profile o (elim o [
                | some _ ↦ retry r' none none
                | none ↦ decide milli_value parse_duration c pod profile r'
              ]))
      go (some e) r' = inl (refl, refl)
      go none r' = decide-IsProgress pod profile r'

  -- A call for a gated pod of a known profile makes progress: it asks to be called again, without
  -- an error, or it sends the pod without any gate of the program's and returns an error only if
  -- that patch fails. So no branch leaves such a pod gated and unattended.
  pub reconcile-IsProgress :
      (r : Reconciler) (pod : Pod) (profile_name : String) (profile : PackingProfile)
      → c.pod ≡ found pod
      → has_kompakt_gates pod ≡ true
      → lookup label_profile pod.labels ≡ some profile_name
      → c.profiles profile_name ≡ found profile
      → IsProgress c (reconcile milli_value parse_duration c r)
  unfolding reconcile reconcile_pod reconcile_labelled
  reconcile-IsProgress r pod profile_name profile e gated labelled known =
      rw (e, gated, labelled, known) (profile-IsProgress pod profile r)

  sync_detected-error :
      (profile : PackingProfile) (pod : Pod) (ds : List Detection) (snap : Dict (Dict ℤ))
      (l : Ledger)
      → (sync_detected profile pod ds snap l).error ≡ none
  unfolding sync_detected
  sync_detected-error profile pod ds snap l = elim (Option-cases (first_detection ds)) [
    | inl e ↦ ground arith
    | inr (d, e) ↦ ground arith
  ]

  sync_ledger-error :
      (profile : PackingProfile) (pod : Pod) (nodes : List Node) (pods : List Pod) (r : Reconciler)
      → (sync_ledger milli_value profile pod
          (listed nodes)
          (listed pods)
          c.detections
          r.ledger
          r.active_detectors).error
        ≡ none
  unfolding sync_ledger
  sync_ledger-error profile pod nodes pods r = sync_detected-error profile pod c.detections _ _

  abbrev urgent_reason : Pod → String
  urgent_reason pod =
      if get_or "" annotation_priority pod.annotations == "high" then "priority" else "timeout"

  pub decide-urgent :
      (pod : Pod) (profile : PackingProfile) (r : Reconciler)
      → (get_or "" annotation_priority pod.annotations == "high"
          || is_timed_out parse_duration c.now pod profile)
        ≡ true
      → decide milli_value parse_duration c pod profile r
        ≡ release c r (release_gates pod (urgent_reason pod)) (urgent_reason pod) ""
  unfolding decide
  decide-urgent pod profile r urgent =
      elim (Bool-cases (get_or "" annotation_priority pod.annotations == "high")) [
        | inl high ↦ ground arith
        | inr low ↦ ground arith
      ]

  module _ (r : Reconciler) (pod : Pod) (profile_name : String) (profile : PackingProfile)
      (nodes : List Node) (pods : List Pod) (e : c.pod ≡ found pod)
      (gated : has_kompakt_gates pod ≡ true)
      (labelled : lookup label_profile pod.labels ≡ some profile_name)
      (known : c.profiles profile_name ≡ found profile) (ns : c.nodes ≡ listed nodes)
      (ps : c.pods ≡ listed pods) where
    abbrev pub synced : Synced
    synced =
        sync_ledger milli_value profile pod c.nodes c.pods c.detections r.ledger r.active_detectors

    abbrev pub r' : Reconciler
    r' = record { ledger = synced.ledger; active_detectors = synced.active_detectors }

    pub reconcile-decides :
        reconcile milli_value parse_duration c r
        ≡ report c profile none (decide milli_value parse_duration c pod profile r')
    unfolding reconcile reconcile_pod reconcile_labelled reconcile_profile
    reconcile-decides =
        let fine : synced.error ≡ none = rw (ns, ps) (sync_ledger-error profile pod nodes pods r) in
        rw (e, gated, labelled, known, fine) refl

    -- A gated pod of a known profile that has high priority or has waited longer than the
    -- profile's timeout is released at the first call in which the nodes and the pods can be
    -- listed, whatever the ledger, the rules and the detectors are, and no rule is evaluated: the
    -- ledger is the one that `syncLedger` leaves.
    pub reconcile_escapes :
        (get_or "" annotation_priority pod.annotations == "high"
            || is_timed_out parse_duration c.now pod profile)
          ≡ true
        → let done = reconcile milli_value parse_duration c r in
          let reason : String =
            if get_or "" annotation_priority pod.annotations == "high"
            then "priority"
            else "timeout" in
          (done.event ≡ some (released reason ""))
          × (done.patch ≡ some (release_gates pod reason))
          × (done.requeue ≡ false)
          × (done.after.ledger
              ≡ (sync_ledger milli_value profile pod c.nodes c.pods c.detections r.ledger
                  r.active_detectors).ledger)
    unfolding report
    reconcile_escapes urgent =
        let whole = reconcile-decides in
        let chosen = decide-urgent pod profile r' urgent in
        rw (whole, chosen) (refl, refl, refl, refl)
