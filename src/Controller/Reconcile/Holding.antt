-- ===== src/Controller/Reconcile/Holding.antt =====
-- `Reconcile`, call after call: a pod that waits for an in-flight node.
use kompakt.Prelude.{
  String, ◌==◌, ◌≡◌, refl, sym, ap, ◌∙◌, true, false, ◌||◌, Option, none, some, List, [], ◌∷◌,
  length, is_empty, inl, arith,
}
use mathlib.Core.Path.{subst, fun_ext}
use kompakt.Int.{ℤ, pos}
use kompakt.Text.{◌+++◌, has_prefix}
use kompakt.Dict.{Dict, lookup, get_or}
use kompakt.Dict.Laws.{lookup-insert_self}
use kompakt.Kube.{found, Quantity, Pod, Node}
use kompakt.Api.{PackingProfile}
use kompakt.Ledger.{NodeEntry, Ledger, ok, add_demand, find_entry, store_entry, reserve}
use kompakt.Ledger.Fit.{find_fit}
use kompakt.Ledger.Choice.{find_fit_sound}
use kompakt.Ledger.Reserving.{plus_demand, get_or-add_demand, reserve_ok}
use kompakt.Ledger.Sure.{reserve-find_fit}
use kompakt.Ledger.WellFormed.{IsWellFormed}
use kompakt.Rules.{demand_of, extract_constraints, evaluate_node_ready}
use kompakt.Rules.Accounts.{plus_times}
use kompakt.Rules.Decisions.{node_ready-some}
use kompakt.Rules.Demand.Sums.{extract_demand-UniqueKeys}
use kompakt.Controller.Gates.{label_profile, annotation_priority, has_kompakt_gates}
use kompakt.Controller.Sync.{listed, sync_ledger}
use kompakt.Controller.Sync.Kept.{sync_ledger-IsWellFormed}
use kompakt.Controller.Sync.Bare.{is_some}
use kompakt.Controller.Sync.Expected.{expected_amount, sync_ledger-expected_amount}
use kompakt.Controller.Sync.Lasting.{reserved_of}
use kompakt.Controller.Reconcile.{
  Cluster, Reconciler, held_by, evaluate_rules, is_timed_out, settle_verdict, report, reconcile,
}
use kompakt.Controller.Reconcile.Kept.{reconcile-IsWellFormed}
use kompakt.Controller.Reconcile.Progress.{r', reconcile-decides}
use kompakt.Controller.Reconcile.Capacity.{decide-calm}
use kompakt.Controller.Reconcile.Verdicts.{turn-held}

-- A reservation on an in-flight node.
reserve-expected_amount :
    (key : String) (demand : Dict ℤ) (l : Ledger) (n : NodeEntry)
    → lookup key l.nodes ≡ none
    → lookup key l.inflight ≡ some n
    → (reserve key demand l).0 ≡ ok
    → (lookup key (reserve key demand l).1.nodes ≡ none)
      × (lookup key (reserve key demand l).1.inflight
          ≡ some (record n { reserved = add_demand n.reserved demand }))
unfolding find_entry store_entry
reserve-expected_amount key demand l n absent there done =
    let e : find_entry key l ≡ some n = ground (arith, absent, there) in
    let whole = ap (λ r. r.1) (reserve_ok key demand l n e done) in
    let m : NodeEntry = record n { reserved = add_demand n.reserved demand } in
    let kept : (lookup key (store_entry key m l).nodes ≡ none)
        × (lookup key (store_entry key m l).inflight ≡ some m) =
      (ground (arith, absent), ground (arith, absent, lookup-insert_self key m l.inflight)) in
    (
      ap (λ l'. lookup key l'.nodes) whole ∙ kept.0,
      ap (λ l'. lookup key l'.inflight) whole ∙ kept.1,
    )

module _ (milli_value : Quantity → ℤ) (parse_duration : String → Option ℤ) (pod : Pod)
    (profile_name : String) (profile : PackingProfile) (key : String) where
  abbrev pub demand : Dict ℤ
  demand = demand_of milli_value pod profile

  abbrev synced_of : Cluster → Reconciler → Ledger
  synced_of c r =
      (sync_ledger milli_value profile pod c.nodes c.pods c.detections r.ledger
        r.active_detectors).ledger

  -- A call, in which the nodes and the pods can be listed, for the pod before its timeout and without
  -- high priority: on the ledger that is rebuilt, `FindFit` finds the in-flight node, and no existing
  -- node has its name.
  pub record Expects (c : Cluster) (r : Reconciler) : Type 0 where
    pub nodes : List Node
    pub pods : List Pod
    pub read : c.pod ≡ found pod
    pub known : c.profiles profile_name ≡ found profile
    pub nodes_listed : c.nodes ≡ listed nodes
    pub pods_listed : c.pods ≡ listed pods
    pub calm :
        (get_or "" annotation_priority pod.annotations == "high"
          || is_timed_out parse_duration c.now pod profile)
        ≡ false
    pub apart : lookup key (synced_of c r).nodes ≡ none
    pub fit : find_fit demand (extract_constraints pod) (synced_of c r) ≡ some (key, true)

  -- Calls of that kind, each on what the one before left.
  abbrev pub AreExpected : Reconciler → List Cluster → Type 0
  AreExpected r [] = Unit
  AreExpected r (c ∷ cs) =
      Expects c r × AreExpected (reconcile milli_value parse_duration c r).after cs

  -- The ledger after the calls, where each of them asks for another one.
  abbrev pub Ends : Reconciler → List Cluster → (String → ℤ) → Type 0
  Ends r [] amounts = (res : String) → expected_amount key r.ledger res ≡ amounts res
  Ends r (c ∷ cs) amounts =
      ((reconcile milli_value parse_duration c r).requeue ≡ true)
      × Ends (reconcile milli_value parse_duration c r).after cs amounts

  module _ (rest : List String) (gated : has_kompakt_gates pod ≡ true)
      (labelled : lookup label_profile pod.labels ≡ some profile_name)
      (rules : profile.spec.rules ≡ "WaitForNodeReady" ∷ rest) (asks : is_empty demand ≡ false)
      (own : has_prefix key (profile.name +++ "/") ≡ true) where
    -- One call.
    record Held (c : Cluster) (r : Reconciler) : Type 0 where
      requeue : (reconcile milli_value parse_duration c r).requeue ≡ true
      absent : lookup key (reconcile milli_value parse_duration c r).after.ledger.nodes ≡ none
      taken :
          (res : String)
          → expected_amount key (reconcile milli_value parse_duration c r).after.ledger res
            ≡ plus_demand (expected_amount key r.ledger res) (lookup res demand)

    evaluates-held :
        (l : Ledger)
        → find_fit demand (extract_constraints pod) l ≡ some (key, true)
        → (reserve key demand l).0 ≡ ok
        → evaluate_rules milli_value pod profile profile.spec.rules "" l
          ≡ (held_by "WaitForNodeReady", (reserve key demand l).1)
    unfolding lookup
    evaluates-held l fit fine =
        let one = node_ready-some milli_value pod l profile key true asks fit fine in
        ap (λ names. evaluate_rules milli_value pod profile names "" l) rules
        ∙ turn-held milli_value pod profile "WaitForNodeReady" rest "" l
            (evaluate_node_ready milli_value) "" refl (ap (λ a. a.0) one)
        ∙ ap (λ l'. (held_by "WaitForNodeReady", l')) (ap (λ a. a.1) one)

    synced-amount :
        (c : Cluster) (r : Reconciler) (x : Expects c r)
        → IsWellFormed r.ledger
        → lookup key r.ledger.nodes ≡ none
        → (n : NodeEntry) → lookup key (synced_of c r).inflight ≡ some n
        → (res : String)
        → expected_amount key (synced_of c r) res ≡ expected_amount key r.ledger res
    synced-amount c r x w absent n there res =
        let l' =
          (sync_ledger milli_value profile pod (listed x.nodes) (listed x.pods) c.detections
            r.ledger r.active_detectors).ledger in
        let same : synced_of c r ≡ l' = rw (x.nodes_listed, x.pods_listed) refl in
        ap (λ l. expected_amount key l res) same
        ∙ sync_ledger-expected_amount key profile pod milli_value x.nodes x.pods c.detections
            r.ledger r.active_detectors own w absent
            (ap (λ l. is_some (lookup key l.inflight)) (sym same) ∙ ap is_some there) res

    -- What the call leaves where it finds the node.
    reconcile-held :
        (c : Cluster) (r : Reconciler) (x : Expects c r)
        → (reserve key demand (synced_of c r)).0 ≡ ok
        → ((reconcile milli_value parse_duration c r).requeue ≡ true)
          × ((reconcile milli_value parse_duration c r).after.ledger
              ≡ (reserve key demand (synced_of c r)).1)
    unfolding report settle_verdict
    reconcile-held c r x fine =
        let base =
          r' milli_value parse_duration c r pod profile_name profile x.nodes x.pods x.read gated
            labelled x.known x.nodes_listed x.pods_listed in
        let ended =
          reconcile-decides milli_value parse_duration c r pod profile_name profile x.nodes x.pods
            x.read gated labelled x.known x.nodes_listed x.pods_listed
          ∙ ap (report c profile none)
              (decide-calm milli_value parse_duration c pod profile base x.calm)
          ∙ ap
              (λ v. report c profile none (settle_verdict c (record base { ledger = v.1 }) pod v.0))
              (evaluates-held (synced_of c r) x.fit fine) in
        (ap (λ d. d.requeue) ended, ap (λ d. d.after.ledger) ended)

    reconcile-Held :
        (c : Cluster) (r : Reconciler)
        → Expects c r
        → IsWellFormed r.ledger
        → lookup key r.ledger.nodes ≡ none
        → Held c r
    reconcile-Held c r x w absent =
        let l = synced_of c r in
        let wl =
          sync_ledger-IsWellFormed milli_value profile pod c.nodes c.pods c.detections r.ledger
            r.active_detectors w in
        let fine =
          reserve-find_fit demand (extract_constraints pod) l key true wl.nodes wl.inflight
            (inl x.apart) x.fit in
        let (n, _, there, _) =
          find_fit_sound demand (extract_constraints pod) l key true wl.nodes wl.inflight x.fit in
        let (again, moved) = reconcile-held c r x fine in
        let (gone, kept) = reserve-expected_amount key demand l n x.apart there fine in
        record {
          requeue = again;
          absent = ap (λ l'. lookup key l'.nodes) moved ∙ gone;
          taken = λ res.
              ap (λ l'. expected_amount key l' res) moved
              ∙ ap (λ o. get_or (pos 0) res (reserved_of o)) kept
              ∙ get_or-add_demand res demand n.reserved
                  (extract_demand-UniqueKeys milli_value pod profile.spec.demand_source)
              ∙ ap (λ a. plus_demand a (lookup res demand))
                  (sym (ap (λ o. get_or (pos 0) res (reserved_of o)) there)
                    ∙ synced-amount c r x w absent n there res);
        }

    Ends-start :
        (cs : List Cluster) (r : Reconciler) (a b : String → ℤ)
        → ((res : String) → a res ≡ b res)
        → Ends r cs a
        → Ends r cs b
    Ends-start cs r a b h e = subst (Ends r cs) (fun_ext h) e

    -- A pod that waits for an in-flight node reserves its demand there again at each call: each of the
    -- calls asks for another one, and at their end what is reserved on the node is what was reserved
    -- before them and once more the demand for each call, as int64 adds it. The pod has a gate of the
    -- program and the profile's label, its demand is not empty, and the profile's first rule is
    -- WaitForNodeReady. In each call the nodes and the pods can be listed, the pod has neither high
    -- priority nor reached its timeout, and `FindFit` finds the node on the ledger that `syncLedger`
    -- rebuilt. The node is one of the profile's in-flight nodes, no existing node has its name, and the
    -- maps of the ledger before the calls hold a name once.
    pub reconcile-Ends :
        (cs : List Cluster) (r : Reconciler)
        → IsWellFormed r.ledger
        → lookup key r.ledger.nodes ≡ none
        → AreExpected r cs
        → Ends r cs
            (λ res. plus_times (length cs) (expected_amount key r.ledger res) (lookup res demand))
    reconcile-Ends [] r w absent tt = λ res. refl
    reconcile-Ends (c ∷ cs) r w absent (x, xs) =
        let h = reconcile-Held c r x w absent in
        let next = (reconcile milli_value parse_duration c r).after in
        (
          h.requeue,
          Ends-start cs next _ _
              (λ res. ap (λ a. plus_times (length cs) a (lookup res demand)) (h.taken res))
              (reconcile-Ends cs next (reconcile-IsWellFormed milli_value parse_duration c r w)
                h.absent xs),
        )
