-- ===== src/Controller/Reconcile/Kept.antt =====
-- `Reconcile` and the maps of the ledger.
use mathlib.Core.Path.{subst}
use kompakt.Prelude.{
  String, ◌==◌, ◌≡◌, refl, sym, Bool, true, false, not, Option, none, some, List, [], ◌∷◌,
  Bool-cases, inl, inr, arith, if◌then◌else◌,
}
use kompakt.Int.{ℤ}
use kompakt.Dict.{lookup, get_or}
use kompakt.Kube.{Fetched, found, not_found, fetch_error, Quantity, Pod}
use kompakt.Api.{PackingProfile}
use kompakt.Ledger.{Ledger}
use kompakt.Ledger.WellFormed.{IsWellFormed}
use kompakt.Rules.{Rule, Evaluation, decided, failed, registry}
use kompakt.Controller.Sync.{Synced, sync_ledger}
use kompakt.Controller.Gates.{annotation_priority, label_profile, has_kompakt_gates}
use kompakt.Controller.Reconcile.{
  Cluster, Reconciler, Verdict, all_release, held_by, rule_error, evaluate_rules, settle_verdict,
  decide, is_timed_out, Reconciled, leave, retry, report, reconcile_profile, reconcile_labelled,
  reconcile_pod, reconcile,
}
use kompakt.Controller.Sync.Kept.{sync_ledger-IsWellFormed}
use kompakt.Rules.Kept.{registered-IsKeeping}

module _ (milli_value : Quantity → ℤ) where
  -- The rest of the loop keeps the ledger well formed.
  abbrev RestIsKept : Pod → PackingProfile → List String → Type 0
  RestIsKept pod profile names =
      (t : String) (l : Ledger)
      → IsWellFormed l
      → IsWellFormed (evaluate_rules milli_value pod profile names t l).1

  evaluate_rules-IsWellFormed :
      (pod : Pod) (profile : PackingProfile) (names : List String) (target : String) (l : Ledger)
      → IsWellFormed l
      → IsWellFormed (evaluate_rules milli_value pod profile names target l).1
  unfolding evaluate_rules
  evaluate_rules-IsWellFormed pod profile [] target l w = w
  evaluate_rules-IsWellFormed pod profile (name ∷ names) target l w =
      go (λ t l' w'. evaluate_rules-IsWellFormed pod profile names t l' w')
        (lookup name (registry milli_value)) refl
    where
      answered :
          RestIsKept pod profile names
          → (rule : Rule milli_value) (e : Evaluation) → IsWellFormed (rule pod l profile).1
          → IsWellFormed
              (elim e as (λ _. Verdict × Ledger) [
                | failed ↦ (rule_error, (rule pod l profile).1)
                | decided release node_name ↦ elim release [
                  | false ↦ (held_by name, (rule pod l profile).1)
                  | true ↦
                      evaluate_rules milli_value pod profile names
                        (if not (node_name == "") then node_name else target)
                        (rule pod l profile).1
                ]
              ]).1
      answered again rule failed k = k
      answered again rule (decided false n) k = k
      answered again rule (decided true n) k = again _ (rule pod l profile).1 k

      go :
          RestIsKept pod profile names
          → (o : Option (Rule milli_value)) → lookup name (registry milli_value) ≡ o
          → IsWellFormed
              (elim o as (λ _. Verdict × Ledger) [
                | none ↦ evaluate_rules milli_value pod profile names target l
                | some rule ↦ elim (rule pod l profile).0 [
                  | failed ↦ (rule_error, (rule pod l profile).1)
                  | decided release node_name ↦ elim release [
                    | false ↦ (held_by name, (rule pod l profile).1)
                    | true ↦
                        evaluate_rules milli_value pod profile names
                          (if not (node_name == "") then node_name else target)
                          (rule pod l profile).1
                  ]
                ]
              ]).1
      go again none e = again target l w
      go again (some rule) e =
          answered again rule (rule pod l profile).0
            (registered-IsKeeping milli_value name rule e pod profile l w)

module _ (milli_value : Quantity → ℤ) (parse_duration : String → Option ℤ) (c : Cluster) where
  pub settle_verdict-kept :
      (r : Reconciler) (pod : Pod) (v : Verdict) → (settle_verdict c r pod v).after ≡ r
  unfolding settle_verdict
  settle_verdict-kept r pod (all_release t) = refl
  settle_verdict-kept r pod (held_by rule) = refl
  settle_verdict-kept r pod rule_error = refl

  decide-IsWellFormed :
      (pod : Pod) (profile : PackingProfile) (r : Reconciler)
      → IsWellFormed r.ledger
      → IsWellFormed (decide milli_value parse_duration c pod profile r).after.ledger
  unfolding decide
  decide-IsWellFormed pod profile r w =
      elim (Bool-cases (get_or "" annotation_priority pod.annotations == "high")) [
        | inl high ↦ subst (λ x. IsWellFormed x) (sym (ground arith)) w
        | inr low ↦ elim (Bool-cases (is_timed_out parse_duration c.now pod profile)) [
          | inl late ↦ subst (λ x. IsWellFormed x) (sym (ground arith)) w
          | inr soon ↦
              subst (λ x. IsWellFormed x)
                (sym (
                  ground (
                    arith,
                    settle_verdict-kept
                        (record r {
                          ledger =
                              (evaluate_rules milli_value pod profile profile.spec.rules ""
                                r.ledger).1;
                        })
                        pod
                        (evaluate_rules milli_value pod profile profile.spec.rules "" r.ledger).0,
                  )))
                (evaluate_rules-IsWellFormed milli_value pod profile profile.spec.rules "" r.ledger
                  w)
        ]
      ]

  reconcile_profile-IsWellFormed :
      (pod : Pod) (profile : PackingProfile) (r : Reconciler)
      → IsWellFormed r.ledger
      → IsWellFormed (reconcile_profile milli_value parse_duration c pod profile r).after.ledger
  unfolding reconcile_profile report
  reconcile_profile-IsWellFormed pod profile r w =
      go synced.ledger synced.active_detectors synced.error (
        sync_ledger-IsWellFormed milli_value profile pod c.nodes c.pods c.detections r.ledger
          r.active_detectors w)
    where
      synced : Synced
      synced =
          sync_ledger milli_value profile pod c.nodes c.pods c.detections r.ledger
            r.active_detectors

      go :
          (l : Ledger) (ds : List String) (o : Option String)
          → IsWellFormed l
          → IsWellFormed
              (elim o as (λ _. Reconciled) [
                | some _ ↦ retry (record { ledger = l; active_detectors = ds }) none none
                | none ↦
                    decide milli_value parse_duration c pod profile
                      (record { ledger = l; active_detectors = ds })
              ]).after.ledger
      go l ds (some _) k = k
      go l ds none k =
          decide-IsWellFormed pod profile (record { ledger = l; active_detectors = ds }) k

  reconcile_labelled-IsWellFormed :
      (pod : Pod) (p : Fetched PackingProfile) (r : Reconciler)
      → IsWellFormed r.ledger
      → IsWellFormed (reconcile_labelled milli_value parse_duration c pod p r).after.ledger
  unfolding reconcile_labelled
  reconcile_labelled-IsWellFormed pod (found profile) r w =
      reconcile_profile-IsWellFormed pod profile r w
  reconcile_labelled-IsWellFormed pod not_found r w = w
  reconcile_labelled-IsWellFormed pod fetch_error r w = w

  reconcile_pod-IsWellFormed :
      (pod : Pod) (r : Reconciler)
      → IsWellFormed r.ledger
      → IsWellFormed (reconcile_pod milli_value parse_duration c pod r).after.ledger
  unfolding reconcile_pod
  reconcile_pod-IsWellFormed pod r w = go (has_kompakt_gates pod) (lookup label_profile pod.labels)
    where
      go :
          (b : Bool) (o : Option String)
          → IsWellFormed
              (if b
                then elim o as (λ _. Reconciled) [
                  | none ↦ leave r false
                  | some profile_name ↦
                      reconcile_labelled milli_value parse_duration c pod
                        (c.profiles profile_name)
                        r
                ]
                else leave r false).after.ledger
      go false o = w
      go true none = w
      go true (some profile_name) =
          reconcile_labelled-IsWellFormed pod (c.profiles profile_name) r w

  -- A call of `Reconcile`, however the API server, the detectors and the clock answer and whether
  -- it releases, holds or fails, keeps each name once in each map of the ledger.
  pub reconcile-IsWellFormed :
      (r : Reconciler)
      → IsWellFormed r.ledger
      → IsWellFormed (reconcile milli_value parse_duration c r).after.ledger
  unfolding reconcile
  reconcile-IsWellFormed r w = go c.pod
    where
      go :
          (p : Fetched Pod)
          → IsWellFormed
              (elim p as (λ _. Reconciled) [
                | not_found ↦ leave r false
                | fetch_error ↦ leave r true
                | found pod ↦ reconcile_pod milli_value parse_duration c pod r
              ]).after.ledger
      go not_found = w
      go fetch_error = w
      go (found pod) = reconcile_pod-IsWellFormed pod r w
