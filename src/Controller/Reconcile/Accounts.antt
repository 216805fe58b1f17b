-- ===== src/Controller/Reconcile/Accounts.antt =====
-- `Reconcile`: the reservations of one call.
use mathlib.Core.Path.{subst}
use kompakt.Prelude.{
  ℕ, suc, ◌+◌, ◌≤◌, String, ◌==◌, ◌≡◌, sym, ap, ◌∙◌, true, ◌||◌, Option, some, List, [], ◌∷◌,
  length, Bool-cases, Option-cases, inl, inr, arith,
}
use kompakt.Int.{ℤ}
use kompakt.Dict.{lookup, get_or}
use kompakt.Kube.{found, Quantity, Pod, Node}
use kompakt.Api.{PackingProfile}
use kompakt.Ledger.{NodeEntry, Ledger, find_entry}
use kompakt.Rules.{registry, demand_of}
use kompakt.Rules.Demand.Sums.{extract_demand-UniqueKeys}
use kompakt.Rules.Accounts.{
  Reserves, stays, HasMore, HasMore-Reserves, Reserves-append, registered-IsSparing,
}
use kompakt.Controller.Gates.{label_profile, annotation_priority, has_kompakt_gates}
use kompakt.Controller.Sync.{listed, sync_ledger}
use kompakt.Controller.Reconcile.{
  Cluster, Reconciler, evaluate_rules, is_timed_out, decide, report, reconcile,
}
use kompakt.Controller.Reconcile.Kept.{settle_verdict-kept}
use kompakt.Controller.Reconcile.Progress.{r', reconcile-decides, decide-urgent}
use kompakt.Controller.Reconcile.Capacity.{decide-calm}
use kompakt.Controller.Reconcile.Verdicts.{
  next_target, turn-unknown, turn-released, turn-held, turn-failed, Evaluation-cases,
}

module _ (milli_value : Quantity → ℤ) (pod : Pod) (profile : PackingProfile) where
  -- A row of at most that many reservations of the pod's demand.
  abbrev pub AtMost : ℕ → Ledger → Ledger → Type 0
  AtMost m l l' = (k : ℕ) × (k ≤ m) × Reserves (demand_of milli_value pod profile) k l l'

  AtMost-skip : (m : ℕ) (l l' : Ledger) → AtMost m l l' → AtMost (suc m) l l'
  AtMost-skip m l l' (k, b, r) = (k, omega (arith, b), r)

  AtMost-first : (m : ℕ) (l l' : Ledger) → AtMost 1 l l' → AtMost (suc m) l l'
  AtMost-first m l l' (k, b, r) = (k, omega (arith, b), r)

  AtMost-append :
      (m : ℕ) (l l' l'' : Ledger) → AtMost 1 l l' → AtMost m l' l'' → AtMost (suc m) l l''
  AtMost-append m l l' l'' (j, bj, r) (k, bk, r') =
      (j + k, omega (arith, bj, bk), Reserves-append _ j k l l' l'' r r')

  abbrev end : List String → String → Ledger → Ledger
  end names target l = (evaluate_rules milli_value pod profile names target l).1

  pub evaluate_rules-AtMost :
      (names : List String) (target : String) (l : Ledger)
      → AtMost (length names) l (end names target l)
  unfolding evaluate_rules
  evaluate_rules-AtMost [] target l = (0, omega arith, stays)
  evaluate_rules-AtMost (name ∷ names) target l =
      let m = length names in
      elim (Option-cases (lookup name (registry milli_value))) [
        | inl e ↦
            subst (AtMost (suc m) l)
              (sym (ap (λ v. v.1) (turn-unknown milli_value pod profile name names target l e)))
              (AtMost-skip m l _ (evaluate_rules-AtMost names target l))
        | inr (rule, e) ↦
            let once = registered-IsSparing milli_value name rule e pod profile l in
            let l' = (rule pod l profile).1 in
            elim (Evaluation-cases milli_value pod profile (rule pod l profile).0) [
              | inl err ↦
                  subst (AtMost (suc m) l)
                    (sym (
                      ap (λ v. v.1)
                        (turn-failed milli_value pod profile name names target l rule e err)))
                    (AtMost-first m l l' once)
              | inr (inl (n, released)) ↦
                  subst (AtMost (suc m) l)
                    (sym (
                      ap (λ v. v.1)
                        (turn-released milli_value pod profile name names target l rule n e
                          released)))
                    (AtMost-append m l l' _ once
                      (evaluate_rules-AtMost names (next_target n target) l'))
              | inr (inr (n, held)) ↦
                  subst (AtMost (suc m) l)
                    (sym (
                      ap (λ v. v.1)
                        (turn-held milli_value pod profile name names target l rule n e held)))
                    (AtMost-first m l l' once)
            ]
      ]

module _ (milli_value : Quantity → ℤ) (parse_duration : String → Option ℤ) (c : Cluster) where
  decide-AtMost :
      (pod : Pod) (profile : PackingProfile) (r : Reconciler)
      → AtMost milli_value pod profile
          (length profile.spec.rules)
          r.ledger
          (decide milli_value parse_duration c pod profile r).after.ledger
  decide-AtMost pod profile r =
      let m = length profile.spec.rules in
      let verdict = evaluate_rules milli_value pod profile profile.spec.rules "" r.ledger in
      elim (Bool-cases (
        get_or "" annotation_priority pod.annotations == "high"
        || is_timed_out parse_duration c.now pod profile)) [
          | inl urgent ↦
              subst (AtMost milli_value pod profile m r.ledger)
                (sym (
                  ap (λ d. d.after.ledger)
                    (decide-urgent milli_value parse_duration c pod profile r urgent)))
                (0, omega arith, stays)
          | inr calm ↦
              subst (AtMost milli_value pod profile m r.ledger)
                (sym (
                  ap (λ d. d.after.ledger)
                    (decide-calm milli_value parse_duration c pod profile r calm)
                  ∙ ap (λ s. s.ledger)
                      (settle_verdict-kept milli_value parse_duration c
                        (record r { ledger = verdict.1 }) pod verdict.0)))
                (evaluate_rules-AtMost milli_value pod profile profile.spec.rules "" r.ledger)
        ]

  module _ (r : Reconciler) (pod : Pod) (profile_name : String) (profile : PackingProfile)
      (nodes : List Node) (pods : List Pod) (e : c.pod ≡ found pod)
      (gated : has_kompakt_gates pod ≡ true)
      (labelled : lookup label_profile pod.labels ≡ some profile_name)
      (known : c.profiles profile_name ≡ found profile) (ns : c.nodes ≡ listed nodes)
      (ps : c.pods ≡ listed pods) where
    abbrev synced_ledger : Ledger
    synced_ledger =
        (sync_ledger milli_value profile pod c.nodes c.pods c.detections r.ledger
          r.active_detectors).ledger

    -- What one call does to the ledger that `syncLedger` rebuilt, for a gated pod of a known profile
    -- where the nodes and the pods can be listed: it makes a row of reservations of the pod's demand,
    -- at most as many as the profile has rules, each of which fits, and nothing else. Each entry is
    -- still there, with the demand added to its reserved quantities at most that many times, and the
    -- rest of it as before: no branch gives a reservation back.
    pub reconcile-Reserves :
        let done = reconcile milli_value parse_duration c r in
        let demand = demand_of milli_value pod profile in
        (k : ℕ) × (k ≤ length profile.spec.rules)
        × Reserves demand k synced_ledger done.after.ledger
        × ((name : String) (n : NodeEntry)
            → find_entry name synced_ledger ≡ some n
            → (n' : NodeEntry) × (find_entry name done.after.ledger ≡ some n')
              × HasMore demand k n n')
    unfolding report
    reconcile-Reserves =
        let done = reconcile milli_value parse_duration c r in
        let whole =
          ap (λ d. d.after.ledger)
            (reconcile-decides milli_value parse_duration c r pod profile_name profile nodes pods e
              gated labelled known ns ps) in
        let (k, bound, row) = decide-AtMost pod profile (
          r' milli_value parse_duration c r pod profile_name profile nodes pods e gated labelled
            known ns ps) in
        let row' =
          subst (Reserves (demand_of milli_value pod profile) k synced_ledger) (sym whole) row in
        (
          k,
          bound,
          row',
          (λ name n h.
              HasMore-Reserves (demand_of milli_value pod profile)
                (extract_demand-UniqueKeys milli_value pod profile.spec.demand_source) k
                synced_ledger done.after.ledger name n row' h),
        )
