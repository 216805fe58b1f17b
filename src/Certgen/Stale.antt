-- ===== src/Certgen/Stale.antt =====
-- `ensureCerts` where the patch of the webhook configuration fails, and the ticks of `Start` after it.
use kompakt.Prelude.{
  ℕ, ◌≡◌, refl, sym, ap, ◌∙◌, inl, inr, Bool, true, false, Option, none, some, List, All, All-impl,
  map, Bool-cases, Option-cases, arith,
}
use kompakt.Int.{ℤ, pos, ◌+ℤ◌, ltb_ℤ}
use kompakt.Dict.{Dict, get_or}
use kompakt.Clock.{seconds}
use kompakt.Kube.{Fetched, found, not_found, fetch_error}
use kompakt.Certgen.Store.{
  Secret, Hooks, Program, done, Api, Fate, works, fails, loses, tears, next, later, fetched,
  fetched_hooks, patch, under, run,
}
use kompakt.Certgen.Generate.{X509, Draws, Certs, generate_certs}
use kompakt.Certgen.Valid.{certs_valid}
use kompakt.Certgen.Provision.{
  Config, Failure, upserting, writing, patching, or_fail, data_of, upsert_secret, write_files,
  patch_with, patch_webhook_ca_bundle, provision, ensure_with, ensure_certs, Tick, start,
}
use kompakt.Certgen.Steps.{run-branch, upsert_secret-run, write_files-run}
use kompakt.Certgen.Lifetime.{IsX509, delay, renewal, certs_valid-generated}
use kompakt.Certgen.Idle.{start-api}

module _ {Pem : Type 0} where
  -- Where a step's failure is not the one returned, the step worked and the rest failed.
  or_fail-some :
      (failure g : Failure) (p : Program Pem Bool) (rest : Program Pem (Option Failure))
      (fs : List (Fate Pem)) (api : Api Pem) (disk : Dict Pem)
      → ((some failure ≡ some g) → ⊥)
      → (run (or_fail failure p rest) fs api disk).value ≡ some g
      → let e = run p fs api disk in
        (e.value ≡ true)
        × (run (or_fail failure p rest) fs api disk ≡ run rest e.fates e.api e.disk)
  unfolding run
  or_fail-some failure g p rest fs api disk ne h = elim (Bool-cases (run p fs api disk).value) [
    | inl e ↦ (e, run-branch p rest (done (some failure)) fs api disk true e)
    | inr e ↦ absurd (
        ne (
          sym (ap (λ r. r.value) (run-branch p rest (done (some failure)) fs api disk false e))
          ∙ h))
  ]

  patch-secret :
      (f : Fate Pem) (m : Hooks Pem) (api : Api Pem)
      → (under f (patch m api) api).1.secret ≡ api.secret
  patch-secret fails m api = refl
  patch-secret (tears rest) m api = refl
  patch-secret works m api = elim (Option-cases api.hooks) [
    | inl e ↦ ground arith
    | inr (old, e) ↦ ground arith
  ]
  patch-secret loses m api = elim (Option-cases api.hooks) [
    | inl e ↦ ground arith
    | inr (old, e) ↦ ground arith
  ]

  pub patch_webhook_ca_bundle-secret :
      (ca_pem : Pem) (fs : List (Fate Pem)) (api : Api Pem) (disk : Dict Pem)
      → (run (patch_webhook_ca_bundle ca_pem) fs api disk).api.secret ≡ api.secret
  unfolding run patch_webhook_ca_bundle
  patch_webhook_ca_bundle-secret ca_pem fs api disk = go (fetched_hooks (next fs) api.hooks)
    where
      go :
          (o : Option (Hooks Pem))
          → (run (patch_with ca_pem o) (later fs) api disk).api.secret ≡ api.secret
      go none = refl
      go (some m) =
          patch-secret (next (later fs)) (record m { bundles = map (λ _. ca_pem) m.bundles }) api

  pub last_step-secret :
      (ca_pem : Pem) (fs : List (Fate Pem)) (api : Api Pem) (disk : Dict Pem)
      → (run (or_fail patching (patch_webhook_ca_bundle ca_pem) (done none)) fs api disk).api.secret
        ≡ api.secret
  unfolding run
  last_step-secret ca_pem fs api disk =
      elim (Bool-cases (run (patch_webhook_ca_bundle ca_pem) fs api disk).value) [
        | inl v ↦
            ap (λ r. r.api.secret)
              (run-branch (patch_webhook_ca_bundle ca_pem) (done none) (done (some patching)) fs api
                disk true v)
            ∙ patch_webhook_ca_bundle-secret ca_pem fs api disk
        | inr v ↦
            ap (λ r. r.api.secret)
              (run-branch (patch_webhook_ca_bundle ca_pem) (done none) (done (some patching)) fs api
                disk false v)
            ∙ patch_webhook_ca_bundle-secret ca_pem fs api disk
      ]

  provision-patching :
      (fresh : Option (Certs Pem)) (fs : List (Fate Pem)) (api : Api Pem) (disk : Dict Pem)
      → (run (provision fresh) fs api disk).value ≡ some patching
      → (certs : Certs Pem) × (v : ℕ) × (fresh ≡ some certs)
        × ((run (provision fresh) fs api disk).api.secret
            ≡ some (record { version = v; data_map = data_of certs }))
  unfolding run provision
  provision-patching none fs api disk h = absurd (ground arith)
  provision-patching (some certs) fs api disk h =
      let (up, e1) =
        or_fail-some upserting patching (upsert_secret certs) _ fs api disk (λ e. cc e) h in
      let r1 = run (upsert_secret certs) fs api disk in
      let (wrote, e2) =
        or_fail-some writing patching (write_files certs.cert_pem certs.key_pem) _ r1.fates r1.api
          r1.disk (λ e. cc e) (sym (ap (λ r. r.value) e1) ∙ h) in
      let r2 = run (write_files certs.cert_pem certs.key_pem) r1.fates r1.api r1.disk in
      let ((v, set), _, _) = upsert_secret-run certs fs api disk up in
      let (_, api2) = write_files-run certs.cert_pem certs.key_pem r1.fates r1.api r1.disk wrote in
      (
        certs,
        v,
        refl,
        ap (λ r. r.api.secret) (e1 ∙ e2)
            ∙ last_step-secret certs.ca_pem r2.fates r2.api r2.disk
            ∙ ap (λ a. a.secret) api2
            ∙ set,
      )

module _ {Key Der Pem : Type 0} (x : X509 Key Der Pem) (cfg : Config) where
  write_only-patching :
      (cert_pem key_pem : Pem) (fs : List (Fate Pem)) (api : Api Pem) (disk : Dict Pem)
      → (run (or_fail writing (write_files cert_pem key_pem) (done none)) fs api disk).value
        ≡ some patching
      → ⊥
  unfolding run
  write_only-patching cert_pem key_pem fs api disk h =
      let (_, e) =
        or_fail-some writing patching (write_files cert_pem key_pem) (done none) fs api disk
          (λ e. cc e) h in
      cc (sym (ap (λ r. r.value) e) ∙ h)

  ensure_certs-patching :
      (now : ℤ) (draws : Draws Key) (fs : List (Fate Pem)) (api : Api Pem) (disk : Dict Pem)
      → let e = run (ensure_certs x cfg now draws) fs api disk in
        e.value ≡ some patching
        → (certs : Certs Pem) × (v : ℕ) × (generate_certs x cfg.service_name cfg.namespace draws
            ≡ some certs)
          × (e.api.secret ≡ some (record { version = v; data_map = data_of certs }))
  unfolding run ensure_certs ensure_with
  ensure_certs-patching now draws fs api disk h = go (fetched (next fs) api.secret) h
    where
      go :
          (answer : Fetched (Secret Pem))
          → let e = run (ensure_with x cfg now draws answer) (later fs) api disk in
            e.value ≡ some patching
            → (certs : Certs Pem) × (v : ℕ) × (generate_certs x cfg.service_name cfg.namespace draws
                ≡ some certs)
              × (e.api.secret ≡ some (record { version = v; data_map = data_of certs }))
      go not_found h = provision-patching _ (later fs) api disk h
      go fetch_error h = absurd (ground arith)
      go (found secret) h =
          elim (Bool-cases (certs_valid x cfg.service_name cfg.namespace now secret.data_map)) [
            | inl valid ↦ absurd (
                write_only-patching (get_or x.nil_pem "tls.crt" secret.data_map)
                  (get_or x.nil_pem "tls.key" secret.data_map) (later fs) api disk (rw valid at h))
            | inr stale ↦ rw stale (provision-patching _ (later fs) api disk (rw stale at h))
          ]

  -- Where `ensureCerts` fails at its last step, the patch of the webhook configuration, no later tick
  -- of `Start` tries it again until the new certificates are due for renewal: however the calls of
  -- these ticks go, the secret and the configuration stay as that call left them.
  pub patching_lem :
      IsX509 x
      → (now : ℤ) (draws : Draws Key) (late : Bool) (fs : List (Fate Pem)) (api : Api Pem)
        (disk : Dict Pem) (ticks : List (Tick x cfg))
      → (run (ensure_certs x cfg now draws) fs api disk).value ≡ some patching
      → seconds draws.server_after ≡ seconds draws.server_before +ℤ delay late
      → All (λ t. ltb_ℤ t.now (seconds draws.server_before +ℤ pos (renewal late)) ≡ true) ticks
      → let e = run (ensure_certs x cfg now draws) fs api disk in
        (start x cfg ticks e.api e.disk).0 ≡ e.api
  patching_lem laws now draws late fs api disk ticks h tick soon =
      let e = run (ensure_certs x cfg now draws) fs api disk in
      let (certs, v, made, set) = ensure_certs-patching now draws fs api disk h in
      start-api x cfg ticks e.api e.disk (record { version = v; data_map = data_of certs }) set
        (All-impl ticks
          (λ t s.
            certs_valid-generated x laws cfg.service_name cfg.namespace draws certs late t.now made
              tick
            ∙ s)
          soon)
