-- ===== src/Controller/Reconcile/Lasting.antt =====
-- `Reconcile`, call after call: the reservations on one node.
use mathlib.Core.Path.{subst, fun_ext}
use kompakt.Prelude.{
  ℕ, ◌≤◌, ◌⊎◌, String, ◌≡◌, refl, sym, ap, ◌∙◌, true, false, any, Option, none, some, List, [], ◌∷◌,
  length, All, inl, inr, arith,
}
use kompakt.Int.{ℤ}
use kompakt.Text.{slash_free}
use kompakt.Dict.{lookup}
use kompakt.Kube.{found, not_found, fetch_error, Quantity, Pod, Node}
use kompakt.Api.{PackingProfile}
use kompakt.Ledger.WellFormed.{IsWellFormed}
use kompakt.Rules.{demand_of}
use kompakt.Rules.Accounts.{plus_times}
use kompakt.Controller.Gates.{label_profile, has_kompakt_gates}
use kompakt.Controller.Sync.{listed, sync_ledger}
use kompakt.Controller.Sync.Bare.{IsKnown}
use kompakt.Controller.Sync.Standing.{is_standing}
use kompakt.Controller.Sync.Lasting.{amount, sync_ledger-amount}
use kompakt.Controller.Reconcile.{Cluster, Reconciler, reconcile, reconcile_pod, reconcile_labelled}
use kompakt.Controller.Reconcile.Kept.{reconcile-IsWellFormed}
use kompakt.Controller.Reconcile.Accounts.{reconcile-Reserves}
use kompakt.Controller.Reconcile.Home.{IsHome, Reserves-IsHome, amount-entry, known-entry}

module _ (milli_value : Quantity → ℤ) (parse_duration : String → Option ℤ) where
  -- The reconciler after the calls.
  abbrev pub reconcile_all : List Cluster → Reconciler → Reconciler
  reconcile_all [] r = r
  reconcile_all (c ∷ cs) r = reconcile_all cs (reconcile milli_value parse_duration c r).after

module _ (milli_value : Quantity → ℤ) (parse_duration : String → Option ℤ) (name : String) where
  -- A call for a gated pod of a known profile, in which the nodes and the pods can be listed and the
  -- node is one that the profile's ledger takes.
  pub record Evaluates (c : Cluster) : Type 0 where
    pub pod : Pod
    pub profile_name : String
    pub profile : PackingProfile
    pub nodes : List Node
    pub pods : List Pod
    pub read : c.pod ≡ found pod
    pub gated : has_kompakt_gates pod ≡ true
    pub labelled : lookup label_profile pod.labels ≡ some profile_name
    pub known : c.profiles profile_name ≡ found profile
    pub nodes_listed : c.nodes ≡ listed nodes
    pub pods_listed : c.pods ≡ listed pods
    pub standing : any (is_standing milli_value name profile) nodes ≡ true

  -- A call: the pod is gone or cannot be read, has no gate or no profile's label, its profile is gone or
  -- cannot be read, or the rules are evaluated.
  pub data Call (c : Cluster) : Type 0 where
    gone : c.pod ≡ not_found → Call c
    unread : c.pod ≡ fetch_error → Call c
    ungated : (pod : Pod) → c.pod ≡ found pod → has_kompakt_gates pod ≡ false → Call c
    unlabelled :
        (pod : Pod)
        → c.pod ≡ found pod
        → has_kompakt_gates pod ≡ true
        → lookup label_profile pod.labels ≡ none
        → Call c
    unprofiled :
        (pod : Pod) (profile_name : String)
        → c.pod ≡ found pod
        → has_kompakt_gates pod ≡ true
        → lookup label_profile pod.labels ≡ some profile_name
        → (c.profiles profile_name ≡ not_found) ⊎ (c.profiles profile_name ≡ fetch_error)
        → Call c
    evaluates : Evaluates c → Call c

  -- What the calls make of quantities: each evaluation adds its pod's demand, at most as often as its
  -- profile has rules, and no other call changes them.
  abbrev pub Grow : (cs : List Cluster) → All Call cs → (String → ℤ) → (String → ℤ) → Type 0
  Grow [] calls a b = (res : String) → a res ≡ b res
  Grow (c ∷ cs) (evaluates e, calls) a b =
      (k : ℕ) × (k ≤ length e.profile.spec.rules)
      × Grow cs calls
          (λ res. plus_times k (a res) (lookup res (demand_of milli_value e.pod e.profile))) b
  Grow (c ∷ cs) (_, calls) a b = Grow cs calls a b

  Grow-start :
      (cs : List Cluster) (calls : All Call cs) (a a' b : String → ℤ)
      → ((res : String) → a res ≡ a' res)
      → Grow cs calls a' b
      → Grow cs calls a b
  Grow-start cs calls a a' b h g = subst (λ f. Grow cs calls f b) (sym (fun_ext h)) g

  idle-after : (c : Cluster) (r : Reconciler) (call : Call c) → elim call as (λ _. Type 0) [
    | evaluates e ↦ Unit
    | _ ↦ (reconcile milli_value parse_duration c r).after ≡ r
  ]
  unfolding reconcile reconcile_pod reconcile_labelled
  idle-after c r (gone e) = rw e refl
  idle-after c r (unread e) = rw e refl
  idle-after c r (ungated pod e g) = rw (e, g) refl
  idle-after c r (unlabelled pod e g l) = rw (e, g, l) refl
  idle-after c r (unprofiled pod profile_name e g l (inl p)) = rw (e, g, l, p) refl
  idle-after c r (unprofiled pod profile_name e g l (inr p)) = rw (e, g, l, p) refl
  idle-after c r (evaluates e) = tt

  -- One evaluation.
  record Evaluated (c : Cluster) (e : Evaluates c) (r : Reconciler) : Type 0 where
    times : ℕ
    bounded : times ≤ length e.profile.spec.rules
    home : IsHome name (reconcile milli_value parse_duration c r).after.ledger
    grown :
        (res : String)
        → plus_times times
            (amount name r.ledger res)
            (lookup res (demand_of milli_value e.pod e.profile))
          ≡ amount name (reconcile milli_value parse_duration c r).after.ledger res

  reconcile-Evaluated :
      slash_free name ≡ true
      → (c : Cluster) (e : Evaluates c) (r : Reconciler) → IsWellFormed r.ledger
      → lookup name r.ledger.inflight ≡ none
      → Evaluated c e r
  reconcile-Evaluated s c e r w absent =
      let demand = demand_of milli_value e.pod e.profile in
      let done = (reconcile milli_value parse_duration c r).after.ledger in
      let synced =
        (sync_ledger milli_value e.profile e.pod c.nodes c.pods c.detections r.ledger
          r.active_detectors).ledger in
      let (known, absent', same) : IsKnown name synced
          × (lookup name synced.inflight ≡ none)
          × ((res : String) → amount name synced res ≡ amount name r.ledger res) =
        rw (e.nodes_listed, e.pods_listed)
          (sync_ledger-amount milli_value name e.profile e.pod e.nodes e.pods c.detections r.ledger
            r.active_detectors s w absent e.standing) in
      let (k, few, row, more) =
        reconcile-Reserves milli_value parse_duration c r e.pod e.profile_name e.profile e.nodes
          e.pods e.read e.gated e.labelled e.known e.nodes_listed e.pods_listed in
      let home =
        Reserves-IsHome demand name k synced done row
          (record { known = known; absent = absent' }) in
      let (n, at) = known-entry name synced known in
      let (n', at', has_more) = more name n at in
      let bound = has_more.bounded in
      record {
        times = has_more.times;
        bounded = omega (arith, bound, few);
        home = home;
        grown = λ res.
            ap (λ a. plus_times has_more.times a (lookup res demand))
              (sym (same res) ∙ amount-entry name synced n res known at)
            ∙ sym (has_more.reserved res)
            ∙ sym (amount-entry name done n' res home.known at');
      }

  abbrev Grown : (cs : List Cluster) → All Call cs → Reconciler → Type 0
  Grown cs calls r =
      Grow cs calls (amount name r.ledger)
        (amount name (reconcile_all milli_value parse_duration cs r).ledger)

  Grown-call :
      slash_free name ≡ true
      → (c : Cluster) (cs : List Cluster) (call : Call c) (calls : All Call cs) (r : Reconciler)
      → IsWellFormed r.ledger
      → lookup name r.ledger.inflight ≡ none
      → ((q : Reconciler)
          → IsWellFormed q.ledger
          → lookup name q.ledger.inflight ≡ none
          → Grown cs calls q)
      → Grown (c ∷ cs) (call, calls) r
  Grown-call s c cs call calls r w absent next = go call (idle-after c r call)
    where
      idle :
          (reconcile milli_value parse_duration c r).after ≡ r
          → Grow cs calls (amount name r.ledger) (
              amount name
                (reconcile_all milli_value parse_duration cs
                  (reconcile milli_value parse_duration c r).after).ledger)
      idle same =
          subst
            (λ q.
              Grow cs calls (amount name r.ledger)
                (amount name (reconcile_all milli_value parse_duration cs q).ledger))
            (sym same) (next r w absent)

      go :
          (call : Call c)
          → elim call as (λ _. Type 0) [
            | evaluates e ↦ Unit
            | _ ↦ (reconcile milli_value parse_duration c r).after ≡ r
          ]
          → Grown (c ∷ cs) (call, calls) r
      go (gone e) same = idle same
      go (unread e) same = idle same
      go (ungated pod e g) same = idle same
      go (unlabelled pod e g l) same = idle same
      go (unprofiled pod p e g l u) same = idle same
      go (evaluates e) _ =
          let one = reconcile-Evaluated s c e r w absent in
          (
            one.times,
            one.bounded,
            Grow-start cs calls _ _ _ one.grown (
                next (reconcile milli_value parse_duration c r).after
                  (reconcile-IsWellFormed milli_value parse_duration c r w) one.home.absent),
          )

  -- Nothing ever gives a reservation on a node back: over any calls in each of which a list that is
  -- read can be read and has the node, not being deleted and with the extended resources that the
  -- profile asks for, what is reserved there at the end is what was reserved at the start with the
  -- demand of each evaluated pod on top, at most as often as its profile has rules. A pod that is
  -- gone, is released or has lost its profile takes nothing of it away, and the rebuild of the ledger
  -- carries it all. The node's name has no `/`, the ledger is well formed at the start, and it has no
  -- in-flight entry of that name.
  pub reconcile_all-Grow :
      slash_free name ≡ true
      → (cs : List Cluster) (calls : All Call cs) (r : Reconciler) → IsWellFormed r.ledger
      → lookup name r.ledger.inflight ≡ none
      → Grow cs calls
          (amount name r.ledger)
          (amount name (reconcile_all milli_value parse_duration cs r).ledger)
  reconcile_all-Grow s [] calls r w absent = λ res. refl
  reconcile_all-Grow s (c ∷ cs) (call, calls) r w absent =
      Grown-call s c cs call calls r w absent (λ q. reconcile_all-Grow s cs calls q)
