-- ===== src/Certgen/Ready.antt =====
-- `ReadyzCheck` after `ensureCerts`.
use kompakt.Prelude.{
  String, ◌≡◌, sym, ap, ◌∙◌, inl, inr, Option, none, some, List, arith, if◌then◌else◌,
}
use kompakt.Int.{ℤ, ◌+ℤ◌, ltb_ℤ}
use kompakt.Clock.{seconds}
use kompakt.Dict.{Dict, lookup}
use kompakt.Certgen.Store.{Api, Fate, run}
use kompakt.Certgen.Generate.{X509, Draws, Certs, cert_lifetime, generate_certs}
use kompakt.Certgen.Provision.{Config, ensure_certs, Unready, expired, readyz_check}
use kompakt.Certgen.Provisioned.{ensure_certs-IsProvisioned}
use kompakt.Certgen.Lifetime.{IsX509}
use kompakt.Certgen.Parts.{generate_certs-IsMade}

module _ {Key Der Pem : Type 0} (x : X509 Key Der Pem) where
  -- `ReadyzCheck` while the certificate of the draws is served.
  abbrev pub readiness : Draws Key → ℤ → Option Unready
  readiness draws now =
      if ltb_ℤ (seconds (draws.server_after +ℤ cert_lifetime)) now then some expired else none

  pub readyz_check-generated :
      IsX509 x
      → (service_name namespace : String) (draws : Draws Key) (certs : Certs Pem) (now : ℤ)
        (disk : Dict Pem)
      → generate_certs x service_name namespace draws ≡ some certs
      → lookup "tls.crt" disk ≡ some certs.cert_pem
      → lookup "tls.key" disk ≡ some certs.key_pem
      → readyz_check x now disk ≡ readiness draws now
  unfolding readyz_check
  readyz_check-generated laws service_name namespace draws certs now disk made crt key =
      let m = generate_certs-IsMade x service_name namespace draws certs made in
      let (c, parsed, _, _, until) = laws.created _ _ _ _ _ m.server_made in
      let pair = laws.paired _ _ _ _ _ _ m.server_made m.key_made in
      let crt' = crt ∙ ap (λ k. some k.cert_pem) m.encoded in
      let key' = key ∙ ap (λ k. some k.key_pem) m.encoded in
      ground (arith, crt', key', pair, parsed, until)

  -- On a cluster without the secret: once `ensureCerts` has returned no error, however its calls went,
  -- `ReadyzCheck` of that replica passes, up to the end of the server's certificate, a year after its
  -- second reading of the clock, and from then on says that the certificate is expired.
  pub ensure_certs-ready :
      (cfg : Config)
      → IsX509 x
      → (now : ℤ) (draws : Draws Key) (fs : List (Fate Pem)) (api : Api Pem) (disk : Dict Pem)
        (moment : ℤ)
      → api.secret ≡ none
      → let e = run (ensure_certs x cfg now draws) fs api disk in
        e.value ≡ none
        → readyz_check x moment e.disk ≡ (
            if ltb_ℤ (seconds (draws.server_after +ℤ cert_lifetime)) moment
            then some expired
            else none)
  ensure_certs-ready cfg laws now draws fs api disk moment empty h =
      elim (ensure_certs-IsProvisioned x cfg now draws fs api disk h) [
        | inl (secret, served) ↦ absurd (cc (sym empty ∙ served.0))
        | inr (certs, made, p) ↦
            readyz_check-generated laws cfg.service_name cfg.namespace draws certs moment _ made
              p.cert_file p.key_file
      ]
