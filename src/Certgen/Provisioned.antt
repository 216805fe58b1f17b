-- ===== src/Certgen/Provisioned.antt =====
-- What `ensureCerts` leaves where it returns no error, however its calls go.
use kompakt.Prelude.{
  ℕ, String, ◌≡◌, refl, sym, ap, ◌∙◌, ◌⊎◌, inl, inr, true, false, not, Option, none, some, List,
  map, Bool-cases, Option-cases, arith, if◌then◌else◌,
}
use kompakt.Int.{ℤ}
use kompakt.Dict.{Dict, lookup, get_or, insert}
use kompakt.Dict.Laws.{lookup-insert, lookup-insert_self}
use kompakt.Kube.{found}
use kompakt.Certgen.Store.{
  Secret, Hooks, Program, done, Api, Fate, works, fails, loses, tears, next, later, fetched, Ended,
  run,
}
use kompakt.Certgen.Generate.{X509, Draws, Certs, generate_certs}
use kompakt.Certgen.Valid.{lacks, certs_valid}
use kompakt.Certgen.Provision.{
  Config, Failure, upserting, writing, patching, or_fail, data_of, upsert_secret, write_files,
  patch_webhook_ca_bundle, provision, ensure_with, ensure_certs,
}
use kompakt.Certgen.Steps.{
  or_fail-none, upsert_secret-run, write_files-run, patch_webhook_ca_bundle-run,
}

module _ {Pem : Type 0} where
  -- The replica serves the certificates, the secret holds them, and each webhook of the
  -- configuration trusts their authority.
  pub record IsProvisioned (certs : Certs Pem) (api : Api Pem) (e : Ended Pem (Option Failure))
      : Type 0 where
    pub cert_file : lookup "tls.crt" e.disk ≡ some certs.cert_pem
    pub key_file : lookup "tls.key" e.disk ≡ some certs.key_pem
    pub secret : (v : ℕ) × (e.api.secret ≡ some (record { version = v; data_map = data_of certs }))
    pub hooks :
        (m : Hooks Pem) × (v : ℕ) × (api.hooks ≡ some m)
        × (e.api.hooks ≡ some (record { version = v; bundles = map (λ _. certs.ca_pem) m.bundles }))

  files-written :
      (cert_pem key_pem : Pem) (disk : Dict Pem)
      → let disk' = insert "tls.key" key_pem (insert "tls.crt" cert_pem disk) in
        (lookup "tls.crt" disk' ≡ some cert_pem) × (lookup "tls.key" disk' ≡ some key_pem)
  files-written cert_pem key_pem disk = (
    lookup-insert "tls.key" "tls.crt" key_pem _ ∙ lookup-insert_self "tls.crt" cert_pem disk,
    lookup-insert_self "tls.key" key_pem _,
  )

  provision-IsProvisioned :
      (fresh : Option (Certs Pem)) (fs : List (Fate Pem)) (api : Api Pem) (disk : Dict Pem)
      → (run (provision fresh) fs api disk).value ≡ none
      → (certs : Certs Pem) × (fresh ≡ some certs)
        × IsProvisioned certs api (run (provision fresh) fs api disk)
  unfolding run provision
  provision-IsProvisioned none fs api disk h = absurd (ground arith)
  provision-IsProvisioned (some certs) fs api disk h =
      let (up, e1) = or_fail-none upserting (upsert_secret certs) _ fs api disk h in
      let r1 = run (upsert_secret certs) fs api disk in
      let (wrote, e2) =
        or_fail-none writing (write_files certs.cert_pem certs.key_pem) _ r1.fates r1.api r1.disk
          (sym (ap (λ r. r.value) e1) ∙ h) in
      let r2 = run (write_files certs.cert_pem certs.key_pem) r1.fates r1.api r1.disk in
      let (patched, e3) =
        or_fail-none patching (patch_webhook_ca_bundle certs.ca_pem) _ r2.fates r2.api r2.disk
          (sym (ap (λ r. r.value) (e1 ∙ e2)) ∙ h) in
      let whole = e1 ∙ e2 ∙ e3 in
      let (secret1, hooks1, disk1) = upsert_secret-run certs fs api disk up in
      let (disk2, api2) =
        write_files-run certs.cert_pem certs.key_pem r1.fates r1.api r1.disk wrote in
      let ((m, v, had, set), secret3, disk3) =
        patch_webhook_ca_bundle-run certs.ca_pem r2.fates r2.api r2.disk patched in
      let (crt, key) = files-written certs.cert_pem certs.key_pem r1.disk in
      let same_disk = ap (λ r. r.disk) whole ∙ disk3 ∙ disk2 in
      (
        certs,
        refl,
        record {
          cert_file = ap (lookup "tls.crt") same_disk ∙ crt;
          key_file = ap (lookup "tls.key") same_disk ∙ key;
          secret = (
            secret1.0,
            ap (λ r. r.api.secret) whole ∙ secret3 ∙ ap (λ a. a.secret) api2 ∙ secret1.1,
          );
          hooks = (
            m,
            v,
            sym (ap (λ a. a.hooks) api2 ∙ hooks1) ∙ had,
            ap (λ r. r.api.hooks) whole ∙ set,
          );
        },
      )

module _ {Key Der Pem : Type 0} (x : X509 Key Der Pem) (cfg : Config) where
  lookup-lacks :
      (key : String) (d : Dict Pem)
      → lacks x key d ≡ false
      → lookup key d ≡ some (get_or x.nil_pem key d)
  unfolding get_or
  lookup-lacks key d h = elim (Option-cases (lookup key d)) [
    | inl e ↦ absurd (ground arith)
    | inr (pem, e) ↦ ground arith
  ]

  certs_valid-lacks :
      (now : ℤ) (d : Dict Pem)
      → certs_valid x cfg.service_name cfg.namespace now d ≡ true
      → (lacks x "tls.crt" d ≡ false) × (lacks x "tls.key" d ≡ false)
  unfolding certs_valid
  certs_valid-lacks now d h = ground arith

  -- The secret was valid, and the replica serves what it holds; nothing else changed.
  abbrev pub IsServed : ℤ → Secret Pem → Api Pem → Ended Pem (Option Failure) → Type 0
  IsServed now secret api e =
      (api.secret ≡ some secret)
      × (certs_valid x cfg.service_name cfg.namespace now secret.data_map ≡ true)
      × (e.api ≡ api)
      × (lookup "tls.crt" e.disk ≡ lookup "tls.crt" secret.data_map)
      × (lookup "tls.key" e.disk ≡ lookup "tls.key" secret.data_map)

  -- What is claimed of a run of the part of `ensureCerts` behind its first call.
  abbrev IsSettled :
      ℤ → Draws Key → List (Fate Pem) → Api Pem → Dict Pem → Program Pem (Option Failure) → Type 0
  IsSettled now draws fs api disk p =
      let e = run p fs api disk in
      e.value ≡ none
      → ((secret : Secret Pem) × IsServed now secret api e)
        ⊎ ((certs : Certs Pem) × (generate_certs x cfg.service_name cfg.namespace draws
              ≡ some certs)
            × IsProvisioned certs api e)

  abbrev serve : Secret Pem → Program Pem (Option Failure)
  serve secret =
      or_fail writing
        (write_files (get_or x.nil_pem "tls.crt" secret.data_map)
          (get_or x.nil_pem "tls.key" secret.data_map))
        (done none)

  ensure_with-eq :
      (now : ℤ) (draws : Draws Key) (secret : Secret Pem)
      → ensure_with x cfg now draws (found secret) ≡ (
          if not (certs_valid x cfg.service_name cfg.namespace now secret.data_map)
          then provision (generate_certs x cfg.service_name cfg.namespace draws)
          else serve secret)
  unfolding ensure_with
  ensure_with-eq now draws secret = refl

  provision-IsSettled :
      (now : ℤ) (draws : Draws Key) (fs : List (Fate Pem)) (api : Api Pem) (disk : Dict Pem)
      → IsSettled now draws fs api disk
          (provision (generate_certs x cfg.service_name cfg.namespace draws))
  provision-IsSettled now draws fs api disk h = inr (provision-IsProvisioned _ fs api disk h)

  serve-IsSettled :
      (now : ℤ) (draws : Draws Key) (fs : List (Fate Pem)) (api : Api Pem) (disk : Dict Pem)
      (secret : Secret Pem)
      → api.secret ≡ some secret
      → certs_valid x cfg.service_name cfg.namespace now secret.data_map ≡ true
      → IsSettled now draws fs api disk (serve secret)
  unfolding run
  serve-IsSettled now draws fs api disk secret eq valid h =
      let cert_pem = get_or x.nil_pem "tls.crt" secret.data_map in
      let key_pem = get_or x.nil_pem "tls.key" secret.data_map in
      let (wrote, whole) = or_fail-none writing (write_files cert_pem key_pem) _ fs api disk h in
      let (disk', api') = write_files-run cert_pem key_pem fs api disk wrote in
      let same = ap (λ r. r.disk) whole ∙ disk' in
      let (crt, key) = files-written cert_pem key_pem disk in
      let (has_crt, has_key) = certs_valid-lacks now secret.data_map valid in
      inl (
        secret,
        (
          eq,
          valid,
          ap (λ r. r.api) whole ∙ api',
          ap (lookup "tls.crt") same ∙ crt ∙ sym (lookup-lacks "tls.crt" secret.data_map has_crt),
          ap (lookup "tls.key") same ∙ key ∙ sym (lookup-lacks "tls.key" secret.data_map has_key),
        ),
      )

  found-IsSettled :
      (now : ℤ) (draws : Draws Key) (fs : List (Fate Pem)) (api : Api Pem) (disk : Dict Pem)
      (secret : Secret Pem)
      → api.secret ≡ some secret
      → IsSettled now draws fs api disk (ensure_with x cfg now draws (found secret))
  found-IsSettled now draws fs api disk secret eq =
      elim (Bool-cases (certs_valid x cfg.service_name cfg.namespace now secret.data_map)) [
        | inr stale ↦
            rw (ensure_with-eq now draws secret, stale) (provision-IsSettled now draws fs api disk)
        | inl valid ↦
            rw (ensure_with-eq now draws secret, valid)
              (serve-IsSettled now draws fs api disk secret eq valid)
      ]

  -- If `ensureCerts` returns no error, however its calls went, then either the secret was valid, and
  -- the replica now serves the certificate and key of the secret while the API server is as it was,
  -- or new certificates were generated, and the replica serves them, the secret holds them, and each
  -- webhook of the configuration trusts their authority.
  pub ensure_certs-IsProvisioned :
      (now : ℤ) (draws : Draws Key) (fs : List (Fate Pem)) (api : Api Pem) (disk : Dict Pem)
      → let e = run (ensure_certs x cfg now draws) fs api disk in
        e.value ≡ none
        → ((secret : Secret Pem) × IsServed now secret api e)
          ⊎ ((certs : Certs Pem) × (generate_certs x cfg.service_name cfg.namespace draws
                ≡ some certs)
              × IsProvisioned certs api e)
  unfolding run ensure_certs ensure_with
  ensure_certs-IsProvisioned now draws fs api disk h = go (next fs) api.secret refl h
    where
      go :
          (f : Fate Pem) (o : Option (Secret Pem))
          → api.secret ≡ o
          → IsSettled now draws (later fs) api disk (ensure_with x cfg now draws (fetched f o))
      go fails o eq h = absurd (ground arith)
      go loses o eq h = absurd (ground arith)
      go (tears rest) o eq h = absurd (ground arith)
      go works none eq h = provision-IsSettled now draws (later fs) api disk h
      go works (some secret) eq h = found-IsSettled now draws (later fs) api disk secret eq h
