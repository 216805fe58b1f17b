-- ===== src/Controller/Reconcile.antt =====
-- `Reconcile`: one gated pod is looked at and released or held. What the API server answers is a
-- `Cluster`; what the source sends to it is part of the result. Metrics and logging are left out.
pub mod Kept
pub mod Progress
pub mod Verdicts
pub mod Capacity
pub mod Waiting
pub mod Accounts
pub mod Home
pub mod Lasting
pub mod Holding
use kompakt.Prelude.{
  ℕ, String, ◌==◌, Bool, true, false, Option, none, some, List, [], ◌∷◌, not, length, is_empty,
  if◌then◌else◌,
}
use kompakt.Int.{ℤ, pos, ltb_ℤ}
use kompakt.Dict.{Dict, lookup, get_or}
use kompakt.Kube.{Fetched, found, not_found, fetch_error, Quantity, Time, Pod, Node}
use kompakt.Api.{PackingProfile}
use kompakt.Ledger.{Ledger}
use kompakt.Rules.{Evaluation, decided, failed, registry}
use kompakt.Clock.{time_sub}
use kompakt.Controller.Gates.{
  label_profile, annotation_priority, annotation_held_by, has_kompakt_gates, release_gates,
  release_gates_with_affinity, annotate_pod,
}
use kompakt.Controller.Status.{report_status}
use kompakt.Controller.Sync.{Listing, Detection, Synced, sync_ledger}

-- What the API server, the detectors and the clock answer during one call. `labelled` lists the
-- pods of a profile's label, and `patch_works` says whether a patch is accepted.
pub record Cluster : Type 0 where
  pub pod : Fetched Pod
  pub profiles : String → Fetched PackingProfile
  pub nodes : Listing Node
  pub pods : Listing Pod
  pub detections : List Detection
  pub labelled : String → Option (List Pod)
  pub now : ℤ
  pub patch_works : Pod → Bool

-- What a reconciler keeps between calls.
pub record Reconciler : Type 0 where
  pub ledger : Ledger
  pub active_detectors : List String

-- The events of `recordRelease` (a reason and a node's name) and `recordHold` (a rule's name).
pub data Event : Type 0 where
  released : String → String → Event
  holding : String → Event

-- What a call does: the reconciler after it, whether it asks to be called again in a second,
-- whether it returns an error, the pod and the profile that it sends, and its event.
pub record Reconciled : Type 0 where
  pub after : Reconciler
  pub requeue : Bool
  pub fails : Bool
  pub patch : Option Pod
  pub update : Option PackingProfile
  pub event : Option Event

-- How the loop over the rules ends.
pub data Verdict : Type 0 where
  all_release : String → Verdict
  held_by : String → Verdict
  rule_error : Verdict

module _ (milli_value : Quantity → ℤ) (pod : Pod) (profile : PackingProfile) where
  -- The loop over the rules, with the target node so far.
  unfoldable pub evaluate_rules : List String → String → Ledger → Verdict × Ledger
  unfolding lookup
  evaluate_rules [] target l = (all_release target, l)
  evaluate_rules (name ∷ names) target l = elim (lookup name (registry milli_value)) [
    | none ↦ evaluate_rules names target l
    | some rule ↦ elim (rule pod l profile).0 [
      | failed ↦ (rule_error, (rule pod l profile).1)
      | decided release node_name ↦ elim release [
        | false ↦ (held_by name, (rule pod l profile).1)
        | true ↦
            evaluate_rules names (if not (node_name == "") then node_name else target)
              (rule pod l profile).1
      ]
    ]
  ]

-- Three minutes in nanoseconds.
abbrev pub default_timeout : ℤ
default_timeout = pos 180000000000

-- The timeout of a profile; `parse_duration` is `time.ParseDuration`, `none` for an error.
abbrev pub timeout_of : (String → Option ℤ) → PackingProfile → ℤ
timeout_of parse_duration profile = elim (parse_duration profile.spec.reservation_timeout) [
  | none ↦ default_timeout
  | some d ↦ d
]

-- `isTimedOut`
unfoldable pub is_timed_out : (String → Option ℤ) → ℤ → Pod → PackingProfile → Bool
unfolding time_sub
is_timed_out parse_duration now pod profile = elim pod.creation [
  | none ↦ false
  | some created ↦ ltb_ℤ (timeout_of parse_duration profile) (time_sub now created)
]

-- A call that returns at once.
abbrev pub leave : Reconciler → Bool → Reconciled
leave r fails = record {
  after = r;
  requeue = false;
  fails = fails;
  patch = none;
  update = none;
  event = none;
}

-- A call that releases: the patch is the last thing that it does, and its error is returned.
abbrev pub release : Cluster → Reconciler → Pod → String → String → Reconciled
release c r pod' reason node_name = record {
  after = r;
  requeue = false;
  fails = not (c.patch_works pod');
  patch = some pod';
  update = none;
  event = some (released reason node_name);
}

-- A call that asks to be called again.
abbrev pub retry : Reconciler → Option Pod → Option Event → Reconciled
retry r sent event = record {
  after = r;
  requeue = true;
  fails = false;
  patch = sent;
  update = none;
  event = event;
}

-- What `Reconcile` does with the verdict of the rules.
unfoldable pub settle_verdict : Cluster → Reconciler → Pod → Verdict → Reconciled
unfolding annotate_pod release_gates_with_affinity
settle_verdict c r pod rule_error = retry r none none
settle_verdict c r pod (held_by rule) =
    retry r (annotate_pod pod annotation_held_by rule) (some (holding rule))
settle_verdict c r pod (all_release target) =
    release c r (release_gates_with_affinity pod target "capacity") "capacity" target

-- The deferred function: the profile's status, with the ledger and the detectors at the end.
unfoldable pub report : Cluster → PackingProfile → Option String → Reconciled → Reconciled
unfolding report_status
report c profile sync_err done = record done {
  update =
      report_status c.now profile sync_err (c.labelled profile.name) done.after.ledger
        done.after.active_detectors (length c.detections);
}

module _ (milli_value : Quantity → ℤ) (parse_duration : String → Option ℤ) (c : Cluster) where
  -- The part of `Reconcile` behind a successful `syncLedger`.
  unfoldable pub decide : Pod → PackingProfile → Reconciler → Reconciled
  unfolding get_or release_gates is_timed_out evaluate_rules settle_verdict
  decide pod profile r =
      let (verdict, l) = evaluate_rules milli_value pod profile profile.spec.rules "" r.ledger in
      if get_or "" annotation_priority pod.annotations == "high"
      then release c r (release_gates pod "priority") "priority" ""
      else if is_timed_out parse_duration c.now pod profile
      then release c r (release_gates pod "timeout") "timeout" ""
      else settle_verdict c (record r { ledger = l }) pod verdict

  -- The part of `Reconcile` from `syncLedger` on.
  unfoldable pub reconcile_profile : Pod → PackingProfile → Reconciler → Reconciled
  unfolding sync_ledger decide report
  reconcile_profile pod profile r =
      let synced =
        sync_ledger milli_value profile pod c.nodes c.pods c.detections r.ledger
          r.active_detectors in
      let r' : Reconciler = record {
        ledger = synced.ledger;
        active_detectors = synced.active_detectors;
      } in
      report c profile synced.error
        (elim synced.error [ some _ ↦ retry r' none none | none ↦ decide pod profile r' ])

  -- The part of `Reconcile` behind the pod's label.
  unfoldable pub reconcile_labelled : Pod → Fetched PackingProfile → Reconciler → Reconciled
  unfolding reconcile_profile release_gates
  reconcile_labelled pod (found profile) r = reconcile_profile pod profile r
  reconcile_labelled pod not_found r =
      release c r (release_gates pod "profile_not_found") "profile_not_found" ""
  reconcile_labelled pod fetch_error r = leave r true

  unfoldable pub reconcile_pod : Pod → Reconciler → Reconciled
  unfolding has_kompakt_gates lookup reconcile_labelled
  reconcile_pod pod r =
      if has_kompakt_gates pod
      then elim (lookup label_profile pod.labels) [
        | none ↦ leave r false
        | some profile_name ↦ reconcile_labelled pod (c.profiles profile_name) r
      ]
      else leave r false

  -- `Reconcile`
  unfoldable pub reconcile : Reconciler → Reconciled
  unfolding reconcile_pod
  reconcile r = elim c.pod [
    | not_found ↦ leave r false
    | fetch_error ↦ leave r true
    | found pod ↦ reconcile_pod pod r
  ]
