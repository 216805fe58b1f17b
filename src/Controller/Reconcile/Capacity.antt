-- ===== src/Controller/Reconcile/Capacity.antt =====
-- `Reconcile`: when a pod is released because there is capacity for it.
use mathlib.Core.Path.{subst}
use kompakt.Prelude.{
  String, ◌==◌, ◌≡◌, sym, ap, ◌∙◌, true, false, ◌||◌, Option, none, some, List, Bool-cases, inl,
  inr, arith,
}
use kompakt.Int.{ℤ}
use kompakt.Dict.{lookup, get_or}
use kompakt.Kube.{found, Quantity, Pod, Node}
use kompakt.Api.{PackingProfile}
use kompakt.Ledger.{Ledger}
use kompakt.Controller.Gates.{
  label_profile, annotation_priority, has_kompakt_gates, release_gates_with_affinity,
}
use kompakt.Controller.Sync.{listed, sync_ledger}
use kompakt.Controller.Reconcile.{
  Cluster, Reconciler, released, Verdict, all_release, held_by, rule_error, evaluate_rules,
  is_timed_out, settle_verdict, decide, report, reconcile,
}
use kompakt.Controller.Reconcile.Kept.{settle_verdict-kept}
use kompakt.Controller.Reconcile.Progress.{reconcile-decides}
use kompakt.Controller.Reconcile.Verdicts.{Passes, Passes-evaluate_rules, evaluate_rules-Passes}

module _ (milli_value : Quantity → ℤ) (parse_duration : String → Option ℤ) (c : Cluster) where
  pub decide-calm :
      (pod : Pod) (profile : PackingProfile) (r : Reconciler)
      → (get_or "" annotation_priority pod.annotations == "high"
          || is_timed_out parse_duration c.now pod profile)
        ≡ false
      → let end = evaluate_rules milli_value pod profile profile.spec.rules "" r.ledger in
        decide milli_value parse_duration c pod profile r
        ≡ settle_verdict c (record r { ledger = end.1 }) pod end.0
  unfolding decide
  decide-calm pod profile r calm =
      elim (Bool-cases (get_or "" annotation_priority pod.annotations == "high")) [
        | inl high ↦ ground arith
        | inr low ↦ ground arith
      ]

  settle_verdict-event :
      (profile : PackingProfile) (r : Reconciler) (pod : Pod) (target : String) (v : Verdict)
      → (report c profile none (settle_verdict c r pod v)).event ≡ some (released "capacity" target)
      → v ≡ all_release target
  unfolding settle_verdict report
  settle_verdict-event profile r pod target (all_release t) e = cc
  settle_verdict-event profile r pod target (held_by rule) e = absurd (ground arith)
  settle_verdict-event profile r pod target rule_error e = absurd (ground arith)

  module _ (r : Reconciler) (pod : Pod) (profile_name : String) (profile : PackingProfile)
      (nodes : List Node) (pods : List Pod) (e : c.pod ≡ found pod)
      (gated : has_kompakt_gates pod ≡ true)
      (labelled : lookup label_profile pod.labels ≡ some profile_name)
      (known : c.profiles profile_name ≡ found profile) (ns : c.nodes ≡ listed nodes)
      (ps : c.pods ≡ listed pods)
      (calm : (get_or "" annotation_priority pod.annotations == "high"
          || is_timed_out parse_duration c.now pod profile)
        ≡ false) where
    -- A gated pod of a known profile that is neither urgent nor late is released for capacity, to a
    -- target node, exactly when every known rule of the profile releases in turn, each on the
    -- ledger that the rules before it left and the first on that of a `syncLedger` whose lists
    -- work. Then the target is the last node that a rule named, the pod is patched to it, and the
    -- ledger is the one that the rules leave.
    pub reconcile_capacity :
        (target : String) (l' : Ledger)
        → let done = reconcile milli_value parse_duration c r in
          let synced =
            sync_ledger milli_value profile pod c.nodes c.pods c.detections r.ledger
              r.active_detectors in
          (Passes milli_value pod profile profile.spec.rules "" synced.ledger target l'
            → (done.event ≡ some (released "capacity" target))
              × (done.patch ≡ some (release_gates_with_affinity pod target "capacity"))
              × (done.after.ledger ≡ l'))
          × (done.event ≡ some (released "capacity" target)
              → Passes milli_value pod profile profile.spec.rules "" synced.ledger target
                  done.after.ledger)
    unfolding report settle_verdict
    reconcile_capacity target l' =
        let synced =
          sync_ledger milli_value profile pod c.nodes c.pods c.detections r.ledger
            r.active_detectors in
        let r' : Reconciler = record {
          ledger = synced.ledger;
          active_detectors = synced.active_detectors;
        } in
        let end = evaluate_rules milli_value pod profile profile.spec.rules "" r'.ledger in
        let whole =
          reconcile-decides milli_value parse_duration c r pod profile_name profile nodes pods e
            gated labelled known ns ps
          ∙ ap (report c profile none) (decide-calm pod profile r' calm) in
        let kept =
          ap (λ d. d.after.ledger) whole
          ∙ ap (λ x. x.ledger)
              (settle_verdict-kept milli_value parse_duration c (record r' { ledger = end.1 }) pod
                end.0) in
        (
          (λ p.
              let done =
                whole
                ∙ ap
                    (λ v.
                      report c profile none (settle_verdict c (record r' { ledger = v.1 }) pod v.0))
                    (Passes-evaluate_rules milli_value pod profile p) in
              (ap (λ d. d.event) done, ap (λ d. d.patch) done, ap (λ d. d.after.ledger) done)),
          (λ h.
              let ends =
                settle_verdict-event profile (record r' { ledger = end.1 }) pod target end.0
                  (sym (ap (λ d. d.event) whole) ∙ h) in
              subst (λ x. Passes milli_value pod profile profile.spec.rules "" r'.ledger target x)
                (sym kept)
                (evaluate_rules-Passes milli_value pod profile profile.spec.rules "" target
                  r'.ledger end.1 (ap (λ v. (v, end.1)) ends))),
        )
