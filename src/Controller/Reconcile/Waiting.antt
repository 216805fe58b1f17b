-- ===== src/Controller/Reconcile/Waiting.antt =====
-- `Reconcile`, call after call: how long one pod is held.
use kompakt.Prelude.{
  ◌*◌, String, ◌==◌, ◌≡◌, true, false, ◌||◌, Option, some, List, [], ◌∷◌, length, Bool-cases, inl,
  inr, arith,
}
use kompakt.Int.{ℤ, pos, ◌+ℤ◌, ◌-ℤ◌, ◌≤ℤ◌, ◌<ℤ◌, ltb_ℤ, max_int64, int_laws}
use kompakt.Dict.{lookup, get_or}
use kompakt.Clock.{time_sub, second}
use kompakt.Kube.{found, Quantity, Pod, Node}
use kompakt.Api.{PackingProfile}
use kompakt.Controller.Gates.{label_profile, annotation_priority, has_kompakt_gates}
use kompakt.Controller.Sync.{listed}
use kompakt.Controller.Reconcile.{Cluster, Reconciler, timeout_of, is_timed_out, reconcile}
use kompakt.Controller.Reconcile.Progress.{reconcile_escapes}

module _ (milli_value : Quantity → ℤ) (parse_duration : String → Option ℤ)
    (created timeout : ℤ) where
  -- A call, in which the nodes and the pods can be listed, for a gated pod of that creation time and a
  -- profile of that timeout, asks to be called again.
  pub record IsHeld (c : Cluster) (r : Reconciler) : Type 0 where
    pub pod : Pod
    pub profile_name : String
    pub profile : PackingProfile
    pub nodes : List Node
    pub pods : List Pod
    pub read : c.pod ≡ found pod
    pub gated : has_kompakt_gates pod ≡ true
    pub labelled : lookup label_profile pod.labels ≡ some profile_name
    pub known : c.profiles profile_name ≡ found profile
    pub nodes_listed : c.nodes ≡ listed nodes
    pub pods_listed : c.pods ≡ listed pods
    pub since : pod.creation ≡ some created
    pub limit : timeout_of parse_duration profile ≡ timeout
    pub held : (reconcile milli_value parse_duration c r).requeue ≡ true

  -- Calls that hold the pod, each at least a second after the one before.
  abbrev pub AreHeld : ℤ → Reconciler → List Cluster → Type 0
  AreHeld t r [] = Unit
  AreHeld t r (c ∷ cs) =
      IsHeld c r
      × (t +ℤ pos second ≤ℤ c.now)
      × AreHeld c.now (reconcile milli_value parse_duration c r).after cs

  late :
      (pod : Pod) (profile : PackingProfile) (now : ℤ)
      → pod.creation ≡ some created
      → timeout_of parse_duration profile ≡ timeout
      → is_timed_out parse_duration now pod profile ≡ ltb_ℤ timeout (time_sub now created)
  unfolding is_timed_out
  late pod profile now since limit = ground arith

  IsHeld-soon :
      (c : Cluster) (r : Reconciler) → IsHeld c r → ltb_ℤ timeout (time_sub c.now created) ≡ false
  IsHeld-soon c r h =
      let urgent =
        get_or "" annotation_priority h.pod.annotations == "high"
        || is_timed_out parse_duration c.now h.pod h.profile in
      elim (Bool-cases urgent) [
        | inl u ↦
            let (_, _, settled, _) =
              reconcile_escapes milli_value parse_duration c r h.pod h.profile_name h.profile
                h.nodes h.pods h.read h.gated h.labelled h.known h.nodes_listed h.pods_listed u in
            absurd (ground (arith, h.held))
        | inr calm ↦ ground (arith, late h.pod h.profile c.now h.since h.limit)
      ]

  within :
      (now : ℤ)
      → timeout <ℤ max_int64
      → ltb_ℤ timeout (time_sub now created) ≡ false
      → now ≤ℤ created +ℤ timeout
  unfolding time_sub ◌-ℤ◌ ◌+ℤ◌
  within now small h = ground arith

  AreHeld-last :
      timeout <ℤ max_int64
      → (t : ℤ) (r : Reconciler) (c : Cluster) (cs : List Cluster) → AreHeld t r (c ∷ cs)
      → t +ℤ pos (length (c ∷ cs) * second) ≤ℤ created +ℤ timeout
  AreHeld-last small t r c [] (h, later, _) =
      let soon = within c.now small (IsHeld-soon c r h) in omega int_laws
  AreHeld-last small t r c (c' ∷ cs) (h, later, rest) =
      let ih =
        AreHeld-last small c.now (reconcile milli_value parse_duration c r).after c' cs rest in
      omega (int_laws, ih)

  -- A pod is not held for longer than its profile's timeout, whatever the ledger, the rules and the
  -- detectors do: of calls for it in which the nodes and the pods can be listed, the first at least a
  -- second after the pod's creation and each at least a second after the one before, no more in a row
  -- can hold it and ask for another one than the timeout has seconds. The timeout is below the
  -- largest int64.
  pub AreHeld-timeout :
      timeout <ℤ max_int64
      → (t : ℤ) (r : Reconciler) (c : Cluster) (cs : List Cluster) → created ≤ℤ t
      → AreHeld t r (c ∷ cs)
      → pos (length (c ∷ cs) * second) ≤ℤ timeout
  AreHeld-timeout small t r c cs begun held =
      omega (arith, AreHeld-last small t r c cs held, int_laws)
