-- ===== src/Certgen/Lasting.antt =====
-- `ReadyzCheck` after any number of runs of `ensureCerts`.
use kompakt.Prelude.{
  ℕ, ◌≡◌, refl, sym, ap, ◌∙◌, inl, inr, Bool, true, false, Option, none, some, List, All, arith,
}
use kompakt.Int.{ℤ, pos, ◌+ℤ◌, ◌≤ℤ◌, ltb_ℤ}
use kompakt.Clock.{seconds, seconds-add}
use kompakt.Dict.{Dict, lookup}
use kompakt.Certgen.Store.{Secret, Api, Fate, run}
use kompakt.Certgen.Generate.{X509, Draws, Certs, cert_lifetime}
use kompakt.Certgen.Valid.{certs_valid}
use kompakt.Certgen.Provision.{Config, data_of, ensure_certs, Tick, start, readyz_check}
use kompakt.Certgen.Provisioned.{ensure_certs-IsProvisioned}
use kompakt.Certgen.Lifetime.{IsX509, delay, renewal, certs_valid-generated}
use kompakt.Certgen.Ready.{readyz_check-generated}
use kompakt.Certgen.Owned.{IsOwn, IsTimely, start-AreOwn}

-- The end of a certificate is behind the time at which it was made.
end_after : (a now : ℤ) → now ≤ℤ a → ltb_ℤ (seconds (a +ℤ cert_lifetime)) now ≡ false
unfolding ◌+ℤ◌
end_after a now h = ground arith

-- The end of a certificate is behind its renewal.
end_later :
    (a b now : ℤ) (late : Bool)
    → seconds a ≡ seconds b +ℤ delay late
    → ltb_ℤ now (seconds b +ℤ pos (renewal late)) ≡ true
    → ltb_ℤ (seconds (a +ℤ cert_lifetime)) now ≡ false
unfolding ◌+ℤ◌
end_later a b now late soon before =
    let whole = seconds-add a 31_536_000 in ground (arith, whole, soon, before)

module _ {Key Der Pem : Type 0} (x : X509 Key Der Pem) (cfg : Config) (laws : IsX509 x) where
  held_data :
      (secret : Secret Pem) (certs : Certs Pem) (v : ℕ)
      → some secret ≡ some (record { version = v; data_map = data_of certs })
      → secret.data_map ≡ data_of certs
  held_data secret certs v h =
      ap (λ (o : Option (Secret Pem)). elim o [ none ↦ data_of certs | some s ↦ s.data_map ]) h

  -- A replica that serves a secret of the program's that is valid is ready.
  served-ready :
      (now : ℤ) (secret : Secret Pem) (certs : Certs Pem) (disk : Dict Pem)
      → IsOwn x cfg certs
      → secret.data_map ≡ data_of certs
      → certs_valid x cfg.service_name cfg.namespace now secret.data_map ≡ true
      → lookup "tls.crt" disk ≡ lookup "tls.crt" secret.data_map
      → lookup "tls.key" disk ≡ lookup "tls.key" secret.data_map
      → readyz_check x now disk ≡ none
  unfolding lookup
  served-ready now secret certs disk own same valid crt key =
      let checked =
        readyz_check-generated x laws cfg.service_name cfg.namespace own.draws certs now disk
          own.made (crt ∙ ap (lookup "tls.crt") same) (key ∙ ap (lookup "tls.key") same) in
      let until =
        certs_valid-generated x laws cfg.service_name cfg.namespace own.draws certs own.late now
          own.made own.soon in
      let before =
        sym until ∙ ap (certs_valid x cfg.service_name cfg.namespace now) (sym same) ∙ valid in
      let good =
        end_later own.draws.server_after own.draws.server_before now own.late own.soon before in
      checked ∙ rw good refl

  -- On a cluster that began without the secret, after any runs of `ensureCerts` by any replicas, one
  -- after the other and however their calls went: a replica whose `ensureCerts` then returns no error
  -- is ready at the time of that call, which is to say that it serves a key pair whose certificate
  -- has not expired. In each run the clock moves on by at most a second between its two readings for
  -- the server's certificate, and in the last one it does not go back.
  pub start-readyz_check :
      (ticks : List (Tick x cfg)) (api : Api Pem) (old disk : Dict Pem) (now : ℤ)
      (draws : Draws Key) (fs : List (Fate Pem))
      → api.secret ≡ none
      → All (λ t. IsTimely x cfg t.draws) ticks
      → now ≤ℤ draws.server_after
      → let e = run (ensure_certs x cfg now draws) fs (start x cfg ticks api old).0 disk in
        e.value ≡ none → readyz_check x now e.disk ≡ none
  start-readyz_check ticks api old disk now draws fs empty timely forward h =
      let api' = (start x cfg ticks api old).0 in
      let own = start-AreOwn x cfg ticks api old timely (inl empty) in
      elim (ensure_certs-IsProvisioned x cfg now draws fs api' disk h) [
        | inr (certs, made, p) ↦
            readyz_check-generated x laws cfg.service_name cfg.namespace draws certs now _ made
              p.cert_file p.key_file
            ∙ rw (end_after draws.server_after now forward) refl
        | inl (secret, served) ↦ elim own [
          | inl gone ↦ absurd (cc (sym gone ∙ served.0))
          | inr (certs, v, mine, has) ↦
              let (had, valid, _, crt, key) = served in
              served-ready now secret certs _ mine (held_data secret certs v (sym had ∙ has)) valid
                crt key
        ]
      ]
