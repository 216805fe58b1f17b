-- ===== src/Manager/Start.antt =====
-- `main` on a new cluster.
use mathlib.Core.Path.{subst}
use kompakt.Prelude.{
  String, ◌≡◌, refl, sym, ap, ◌∙◌, Bool, true, false, Option, none, some, List, [], ◌∷◌, ◌&&◌,
  Bool-cases, inl, inr, arith, if◌then◌else◌,
}
use kompakt.Int.{ℤ, ◌+ℤ◌, ltb_ℤ}
use kompakt.Clock.{seconds}
use kompakt.Dict.{Dict}
use kompakt.Certgen.Store.{Api, Fate, Ended, run, run-bind}
use kompakt.Certgen.Generate.{X509, Draws, cert_lifetime}
use kompakt.Certgen.Provision.{expired, readyz_check}
use kompakt.Certgen.Lifetime.{IsX509}
use kompakt.Manager.{boot}
use kompakt.Manager.Boot.{boot-readyz_check}
use kompakt.Manager.Main.{
  Answers, options, healthz, readyz, provisioner, webhook, reconciler, detector_names, Ending,
  run_manager, go_on, main,
}

abbrev pub is_none : Option String → Bool
is_none none = true
is_none (some message) = false

-- The manager is started after all of its parts were added.
pub record IsComplete (leader_elect : Bool) (e : Ending) : Type 0 where
  pub manager : e.manager ≡ some (options leader_elect)
  pub registrations :
      e.registrations
      ≡ healthz "healthz"
        ∷ readyz "readyz"
        ∷ provisioner
        ∷ webhook "/mutate-v1-pod"
        ∷ reconciler detector_names
        ∷ []

run_manager-IsComplete :
    (a : Answers) (leader_elect : Bool)
    → (run_manager a leader_elect).starts ≡ true
    → IsComplete leader_elect (run_manager a leader_elect)
unfolding run_manager
run_manager-IsComplete a leader_elect h = record {
  manager = ground (arith, h);
  registrations = ground (arith, h);
}

run_manager-failure :
    (a : Answers) (leader_elect : Bool)
    → is_none (run_manager a leader_elect).failure
      ≡ ((run_manager a leader_elect).starts && a.start)
unfolding run_manager
run_manager-failure a leader_elect = ground arith

module _ {Key Der Pem : Type 0} (x : X509 Key Der Pem) (a : Answers) (leader_elect : Bool)
    (account : Option String) (variable : String) (now : ℤ) (draws : Draws Key)
    (fs : List (Fate Pem)) (api : Api Pem) (disk : Dict Pem) where
  abbrev begun : Ended Pem Bool
  begun = run (boot x account variable now draws) fs api disk

  abbrev ended : Ended Pem Ending
  ended = run (main x a leader_elect account variable now draws) fs api disk

  go_on-value :
      (provisioned : Bool) (gs : List (Fate Pem)) (api' : Api Pem) (disk' : Dict Pem)
      → let e = run (go_on a leader_elect provisioned) gs api' disk' in
        (e.disk ≡ disk')
        × (is_none e.value.failure ≡ (e.value.starts && a.start))
        × (e.value.starts ≡ true → (provisioned ≡ true) × IsComplete leader_elect e.value)
  unfolding run
  go_on-value true gs api' disk' = (
    refl,
    run_manager-failure a leader_elect,
    (λ h. (refl, run_manager-IsComplete a leader_elect h)),
  )
  go_on-value false gs api' disk' = (refl, refl, (λ h. absurd (ground arith)))

  -- What is claimed of an end.
  abbrev Fares : ℤ → Ended Pem Ending → Type 0
  Fares moment e =
      (is_none e.value.failure ≡ (e.value.starts && a.start))
      × (e.value.starts ≡ true
          → IsComplete leader_elect e.value
            × (readyz_check x moment e.disk ≡ (
                if ltb_ℤ (seconds (draws.server_after +ℤ cert_lifetime)) moment
                then some expired
                else none)))

  main-works :
      a.config ≡ true
      → a.typed_client ≡ true
      → ended ≡ run (go_on a leader_elect begun.value) begun.fates begun.api begun.disk
  unfolding main
  main-works c h =
      rw (c, h) (run-bind (boot x account variable now draws) (go_on a leader_elect) fs api disk)

  main-fails : (moment : ℤ) → a.config ≡ true → a.typed_client ≡ false → Fares moment ended
  unfolding main run
  main-fails moment c h = rw (c, h) (refl, (λ k. absurd (ground arith)))

  main-unconfigured : (moment : ℤ) → a.config ≡ false → Fares moment ended
  unfolding main run
  main-unconfigured moment c = rw c (refl, (λ k. absurd (ground arith)))

  -- On a cluster without the secret: `main` ends with status 0 just where it calls `Start` and that works.
  -- Where it calls `Start`, the manager has all its parts, in order: both probes, the certificate
  -- provisioner, the webhook and the reconciler with its three detectors; and the readiness probe
  -- passes from then up to the end of the certificate that the replica wrote, however the calls of
  -- the certificate provisioner went.
  pub main-starts :
      IsX509 x
      → (moment : ℤ) → api.secret ≡ none
      → (is_none ended.value.failure ≡ (ended.value.starts && a.start))
        × (ended.value.starts ≡ true
            → IsComplete leader_elect ended.value
              × (readyz_check x moment ended.disk ≡ (
                  if ltb_ℤ (seconds (draws.server_after +ℤ cert_lifetime)) moment
                  then some expired
                  else none)))
  main-starts laws moment empty = elim (Bool-cases a.config) [
    | inr no_config ↦ main-unconfigured moment no_config
    | inl c ↦ elim (Bool-cases a.typed_client) [
      | inr failed ↦ main-fails moment c failed
      | inl works ↦
          let (same, fails, starts) = go_on-value begun.value begun.fates begun.api begun.disk in
          subst (Fares moment) (sym (main-works c works)) (
            fails,
            (λ h.
                let (booted, complete) = starts h in
                (
                  complete,
                  ap (readyz_check x moment) same
                      ∙ boot-readyz_check x account variable laws now draws fs api disk moment empty
                          booted,
                )),
          )
    ]
  ]
