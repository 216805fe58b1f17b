-- ===== src/Manager/Boot.antt =====
-- The start of `main` on a new cluster.
use kompakt.Prelude.{
  String, ◌≡◌, refl, sym, ap, ◌∙◌, Bool, true, false, Option, none, some, List, arith,
  if◌then◌else◌,
}
use kompakt.Int.{ℤ, ◌+ℤ◌, ltb_ℤ}
use kompakt.Clock.{seconds}
use kompakt.Dict.{Dict}
use kompakt.Certgen.Store.{Program, done, Api, Fate, run, run-bind}
use kompakt.Certgen.Generate.{X509, Draws, cert_lifetime}
use kompakt.Certgen.Provision.{Failure, ensure_certs, expired, readyz_check}
use kompakt.Certgen.Lifetime.{IsX509}
use kompakt.Certgen.Ready.{ensure_certs-ready}
use kompakt.Manager.{cert_config, boot}

module _ {Key Der Pem : Type 0} (x : X509 Key Der Pem) (account : Option String)
    (variable : String) where
  abbrev settle : Option Failure → Program Pem Bool
  settle err = elim err [ none ↦ done true | some failure ↦ done false ]

  settle-run :
      (err : Option Failure) (fs : List (Fate Pem)) (api : Api Pem) (disk : Dict Pem)
      → (run (settle err) fs api disk).value ≡ true
      → (err ≡ none) × ((run (settle err) fs api disk).disk ≡ disk)
  unfolding run
  settle-run none fs api disk h = (refl, refl)
  settle-run (some failure) fs api disk h = absurd (ground arith)

  -- On a cluster without the secret: if `main` comes to make its manager, however the calls of its
  -- certificate provisioner went, the readiness probe of the replica passes from the start up to the
  -- end of the server's certificate, a year after its second reading of the clock, and then says that
  -- the certificate is expired.
  pub boot-readyz_check :
      IsX509 x
      → (now : ℤ) (draws : Draws Key) (fs : List (Fate Pem)) (api : Api Pem) (disk : Dict Pem)
        (moment : ℤ)
      → api.secret ≡ none
      → let e = run (boot x account variable now draws) fs api disk in
        e.value ≡ true
        → readyz_check x moment e.disk ≡ (
            if ltb_ℤ (seconds (draws.server_after +ℤ cert_lifetime)) moment
            then some expired
            else none)
  unfolding boot
  boot-readyz_check laws now draws fs api disk moment empty h =
      let cfg = cert_config account variable in
      let p = ensure_certs x cfg now draws in
      let e = run p fs api disk in
      let whole = run-bind p settle fs api disk in
      let (fine, same) =
        settle-run e.value e.fates e.api e.disk (sym (ap (λ r. r.value) whole) ∙ h) in
      ap (λ r. readyz_check x moment r.disk) whole
      ∙ ap (readyz_check x moment) same
      ∙ ensure_certs-ready x cfg laws now draws fs api disk moment empty fine
