-- ===== src/Certgen/Idle.antt =====
-- `ensureCerts` and `Start` while the secret is valid.
use kompakt.Prelude.{
  ◌≡◌, refl, ap, ◌∙◌, inl, inr, Bool, true, false, none, some, List, [], ◌∷◌, All, Bool-cases,
  if◌then◌else◌,
}
use kompakt.Int.{ℤ}
use kompakt.Dict.{Dict, get_or}
use kompakt.Kube.{found}
use kompakt.Certgen.Store.{
  Secret, Program, done, make_dir, write_file, ◌>>=◌, Api, Fate, works, fails, loses, tears, next,
  later, fetched, run,
}
use kompakt.Certgen.Generate.{X509, Draws}
use kompakt.Certgen.Valid.{certs_valid}
use kompakt.Certgen.Provision.{
  Config, writing, and_then, write_files, ensure_with, ensure_certs, Tick, start,
}
use kompakt.Certgen.Steps.{run-branch}

module _ {Pem : Type 0} where
  -- A branch keeps the API server as it is if both programs do.
  branch-api :
      {A : Type 0} (p : Program Pem Bool) (rest stop : Program Pem A)
      → ((fs : List (Fate Pem)) (api : Api Pem) (disk : Dict Pem) → (run p fs api disk).api ≡ api)
      → ((fs : List (Fate Pem)) (api : Api Pem) (disk : Dict Pem)
          → (run rest fs api disk).api ≡ api)
      → ((fs : List (Fate Pem)) (api : Api Pem) (disk : Dict Pem)
          → (run stop fs api disk).api ≡ api)
      → (fs : List (Fate Pem)) (api : Api Pem) (disk : Dict Pem)
      → (run (p >>= λ fine. if fine then rest else stop) fs api disk).api ≡ api
  branch-api p rest stop hp hr hs fs api disk =
      let e = run p fs api disk in
      elim (Bool-cases e.value) [
        | inl v ↦
            ap (λ r. r.api) (run-branch p rest stop fs api disk true v)
            ∙ hr e.fates e.api e.disk
            ∙ hp fs api disk
        | inr v ↦
            ap (λ r. r.api) (run-branch p rest stop fs api disk false v)
            ∙ hs e.fates e.api e.disk
            ∙ hp fs api disk
      ]

  pub write_files-api :
      (cert_pem key_pem : Pem) (fs : List (Fate Pem)) (api : Api Pem) (disk : Dict Pem)
      → (run (write_files cert_pem key_pem) fs api disk).api ≡ api
  unfolding run write_files
  write_files-api cert_pem key_pem =
      branch-api (make_dir done)
        (and_then (write_file "tls.crt" cert_pem done) (write_file "tls.key" key_pem done))
        (done false) (λ fs api disk. refl)
        (branch-api (write_file "tls.crt" cert_pem done) (write_file "tls.key" key_pem done)
          (done false) (λ fs api disk. refl) (λ fs api disk. refl) (λ fs api disk. refl))
        (λ fs api disk. refl)

module _ {Key Der Pem : Type 0} (x : X509 Key Der Pem) (cfg : Config) where
  pub ensure_with-api :
      (now : ℤ) (draws : Draws Key) (secret : Secret Pem)
      → certs_valid x cfg.service_name cfg.namespace now secret.data_map ≡ true
      → (fs : List (Fate Pem)) (api : Api Pem) (disk : Dict Pem)
      → (run (ensure_with x cfg now draws (found secret)) fs api disk).api ≡ api
  unfolding ensure_with run
  ensure_with-api now draws secret valid fs api disk =
      let kept =
        branch-api
          (write_files (get_or x.nil_pem "tls.crt" secret.data_map)
            (get_or x.nil_pem "tls.key" secret.data_map))
          (done none) (done (some writing)) (write_files-api _ _) (λ fs api disk. refl)
          (λ fs api disk. refl) fs api disk in
      rw valid kept

  ensure_certs-api :
      (now : ℤ) (draws : Draws Key) (secret : Secret Pem) (fs : List (Fate Pem)) (api : Api Pem)
      (disk : Dict Pem)
      → api.secret ≡ some secret
      → certs_valid x cfg.service_name cfg.namespace now secret.data_map ≡ true
      → (run (ensure_certs x cfg now draws) fs api disk).api ≡ api
  unfolding ensure_certs run ensure_with
  ensure_certs-api now draws secret fs api disk had valid = go (next fs)
    where
      go :
          (f : Fate Pem)
          → (run (ensure_with x cfg now draws (fetched f api.secret)) (later fs) api disk).api ≡ api
      go works =
          ap (λ o. (run (ensure_with x cfg now draws (fetched works o)) (later fs) api disk).api)
            had
          ∙ ensure_with-api now draws secret valid (later fs) api disk
      go fails = refl
      go loses = refl
      go (tears rest) = refl

  -- While the secret is valid at each tick, the loop of `Start` leaves the secret and the webhook
  -- configuration as they are, however its calls go.
  pub start-api :
      (ticks : List (Tick x cfg)) (api : Api Pem) (disk : Dict Pem) (secret : Secret Pem)
      → api.secret ≡ some secret
      → All (λ t. certs_valid x cfg.service_name cfg.namespace t.now secret.data_map ≡ true) ticks
      → (start x cfg ticks api disk).0 ≡ api
  unfolding start
  start-api [] api disk secret had h = refl
  start-api (t ∷ ticks) api disk secret had h =
      let e = run (ensure_certs x cfg t.now t.draws) t.fates api disk in
      let kept = ensure_certs-api t.now t.draws secret t.fates api disk had h.0 in
      start-api ticks e.api e.disk secret (ap (λ a. a.secret) kept ∙ had) h.1 ∙ kept
