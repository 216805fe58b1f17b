-- ===== src/Certgen/Owned.antt =====
-- The secret over any number of runs of `ensureCerts`, and `ReadyzCheck` after the last one.
use kompakt.Prelude.{
  ℕ, suc, ◌≡◌, refl, ap, ◌∙◌, ◌⊎◌, inl, inr, Bool, true, false, Option, none, some, List, [], ◌∷◌,
  All, Bool-cases, Option-cases, arith, nat_eq,
}
use kompakt.Int.{ℤ, ◌+ℤ◌}
use kompakt.Clock.{seconds}
use kompakt.Dict.{Dict}
use kompakt.Kube.{Fetched, found, not_found, fetch_error}
use kompakt.Certgen.Store.{
  Secret, done, Api, Fate, works, fails, loses, tears, next, later, fetched, create, update, under,
  run,
}
use kompakt.Certgen.Generate.{X509, Draws, Certs, generate_certs}
use kompakt.Certgen.Valid.{certs_valid}
use kompakt.Certgen.Provision.{
  Config, upserting, writing, patching, or_fail, data_of, upsert_with, upsert_secret, write_files,
  patch_webhook_ca_bundle, provision, ensure_with, ensure_certs, Tick, start,
}
use kompakt.Certgen.Steps.{run-branch}
use kompakt.Certgen.Idle.{write_files-api, ensure_with-api}
use kompakt.Certgen.Stale.{last_step-secret}
use kompakt.Certgen.Lifetime.{delay}

module _ {Pem : Type 0} where
  -- The secret is as it was, or holds that data.
  abbrev pub KeepsOr : Dict Pem → Option (Secret Pem) → Option (Secret Pem) → Type 0
  KeepsOr d old new = (new ≡ old) ⊎ ((v : ℕ) × (new ≡ some (record { version = v; data_map = d })))

  update-stored :
      (s : Secret Pem) (api : Api Pem) → KeepsOr s.data_map api.secret (update s api).1.secret
  update-stored s api = elim (Option-cases api.secret) [
    | inl e ↦ inl (ground arith)
    | inr (old, e) ↦ elim (Bool-cases (nat_eq old.version s.version)) [
      | inl same ↦ inr (suc old.version, ground arith)
      | inr other ↦ inl (ground arith)
    ]
  ]

  create-stored : (d : Dict Pem) (api : Api Pem) → KeepsOr d api.secret (create d api).1.secret
  create-stored d api = elim (Option-cases api.secret) [
    | inl e ↦ inr (0, ground arith)
    | inr (s, e) ↦ inl (ground arith)
  ]

  create-KeepsOr :
      (f : Fate Pem) (d : Dict Pem) (api : Api Pem)
      → KeepsOr d api.secret (under f (create d api) api).1.secret
  create-KeepsOr fails d api = inl refl
  create-KeepsOr (tears rest) d api = inl refl
  create-KeepsOr works d api = create-stored d api
  create-KeepsOr loses d api = create-stored d api

  update-KeepsOr :
      (f : Fate Pem) (s : Secret Pem) (api : Api Pem)
      → KeepsOr s.data_map api.secret (under f (update s api) api).1.secret
  update-KeepsOr fails s api = inl refl
  update-KeepsOr (tears rest) s api = inl refl
  update-KeepsOr works s api = update-stored s api
  update-KeepsOr loses s api = update-stored s api

  upsert_secret-KeepsOr :
      (certs : Certs Pem) (fs : List (Fate Pem)) (api : Api Pem) (disk : Dict Pem)
      → KeepsOr (data_of certs) api.secret (run (upsert_secret certs) fs api disk).api.secret
  unfolding run upsert_secret
  upsert_secret-KeepsOr certs fs api disk = go (fetched (next fs) api.secret)
    where
      go :
          (answer : Fetched (Secret Pem))
          → KeepsOr
              (data_of certs)
              api.secret
              (run (upsert_with certs answer) (later fs) api disk).api.secret
      go not_found = create-KeepsOr (next (later fs)) (data_of certs) api
      go fetch_error = inl refl
      go (found s) = update-KeepsOr (next (later fs)) (record s { data_map = data_of certs }) api

  -- The steps behind the secret leave it.
  rest-secret :
      (certs : Certs Pem) (fs : List (Fate Pem)) (api : Api Pem) (disk : Dict Pem)
      → (run
          (or_fail writing
            (write_files certs.cert_pem certs.key_pem)
            (or_fail patching (patch_webhook_ca_bundle certs.ca_pem) (done none)))
          fs
          api
          disk).api.secret
        ≡ api.secret
  unfolding run
  rest-secret certs fs api disk =
      let p = write_files certs.cert_pem certs.key_pem in
      let last = or_fail patching (patch_webhook_ca_bundle certs.ca_pem) (done none) in
      let e = run p fs api disk in
      let kept = ap (λ a. a.secret) (write_files-api certs.cert_pem certs.key_pem fs api disk) in
      elim (Bool-cases e.value) [
        | inl v ↦
            ap (λ r. r.api.secret) (run-branch p last (done (some writing)) fs api disk true v)
            ∙ last_step-secret certs.ca_pem e.fates e.api e.disk
            ∙ kept
        | inr v ↦
            ap (λ r. r.api.secret) (run-branch p last (done (some writing)) fs api disk false v)
            ∙ kept
      ]

  provision-KeepsOr :
      (certs : Certs Pem) (fs : List (Fate Pem)) (api : Api Pem) (disk : Dict Pem)
      → KeepsOr (data_of certs) api.secret (run (provision (some certs)) fs api disk).api.secret
  unfolding run provision
  provision-KeepsOr certs fs api disk =
      let p = upsert_secret certs in
      let rest =
        or_fail writing (write_files certs.cert_pem certs.key_pem)
          (or_fail patching (patch_webhook_ca_bundle certs.ca_pem) (done none)) in
      let e = run p fs api disk in
      let put = upsert_secret-KeepsOr certs fs api disk in
      let same : (run (or_fail upserting p rest) fs api disk).api.secret ≡ e.api.secret =
        elim (Bool-cases e.value) [
          | inl v ↦
              ap (λ r. r.api.secret) (run-branch p rest (done (some upserting)) fs api disk true v)
              ∙ rest-secret certs e.fates e.api e.disk
          | inr v ↦
              ap (λ r. r.api.secret) (run-branch p rest (done (some upserting)) fs api disk false v)
        ] in
      elim put [ inl k ↦ inl (same ∙ k) | inr (v, k) ↦ inr (v, same ∙ k) ]

module _ {Key Der Pem : Type 0} (x : X509 Key Der Pem) (cfg : Config) where
  -- What was generated from draws in which the second reading of the clock for the server's
  -- certificate is at most a second behind the first.
  pub record IsOwn (certs : Certs Pem) : Type 0 where
    pub draws : Draws Key
    pub late : Bool
    pub made : generate_certs x cfg.service_name cfg.namespace draws ≡ some certs
    pub soon : seconds draws.server_after ≡ seconds draws.server_before +ℤ delay late

  -- The secret is missing, or holds certificates that the program generated.
  abbrev pub AreOwn : Option (Secret Pem) → Type 0
  AreOwn secret =
      (secret ≡ none)
      ⊎ ((certs : Certs Pem) × (v : ℕ) × IsOwn certs
          × (secret ≡ some (record { version = v; data_map = data_of certs })))

  abbrev pub IsTimely : Draws Key → Type 0
  IsTimely draws =
      (late : Bool) × (seconds draws.server_after ≡ seconds draws.server_before +ℤ delay late)

  provision-AreOwn :
      (draws : Draws Key) (fs : List (Fate Pem)) (api : Api Pem) (disk : Dict Pem)
      → IsTimely draws
      → AreOwn api.secret
      → AreOwn
          (run
            (provision (generate_certs x cfg.service_name cfg.namespace draws))
            fs
            api
            disk).api.secret
  unfolding run provision
  provision-AreOwn draws fs api disk (late, soon) own =
      go (generate_certs x cfg.service_name cfg.namespace draws) refl
    where
      go :
          (o : Option (Certs Pem))
          → generate_certs x cfg.service_name cfg.namespace draws ≡ o
          → AreOwn (run (provision o) fs api disk).api.secret
      go none eq = own
      go (some certs) eq = elim (provision-KeepsOr certs fs api disk) [
        | inl k ↦ elim own [
          | inl e ↦ inl (k ∙ e)
          | inr (certs', v, mine, e) ↦ inr (certs', v, mine, k ∙ e)
        ]
        | inr (v, k) ↦
            inr (certs, v, (record { draws = draws; late = late; made = eq; soon = soon }), k)
      ]

  ensure_certs-AreOwn :
      (now : ℤ) (draws : Draws Key) (fs : List (Fate Pem)) (api : Api Pem) (disk : Dict Pem)
      → IsTimely draws
      → AreOwn api.secret
      → AreOwn (run (ensure_certs x cfg now draws) fs api disk).api.secret
  unfolding run ensure_certs ensure_with
  ensure_certs-AreOwn now draws fs api disk timely own = go (fetched (next fs) api.secret)
    where
      go :
          (answer : Fetched (Secret Pem))
          → AreOwn (run (ensure_with x cfg now draws answer) (later fs) api disk).api.secret
      go not_found = provision-AreOwn draws (later fs) api disk timely own
      go fetch_error = own
      go (found secret) =
          elim (Bool-cases (certs_valid x cfg.service_name cfg.namespace now secret.data_map)) [
            | inl valid ↦
                rw
                  (ap (λ a. a.secret)
                    (ensure_with-api x cfg now draws secret valid (later fs) api disk))
                  own
            | inr stale ↦ rw stale (provision-AreOwn draws (later fs) api disk timely own)
          ]

  pub start-AreOwn :
      (ticks : List (Tick x cfg)) (api : Api Pem) (disk : Dict Pem)
      → All (λ t. IsTimely t.draws) ticks
      → AreOwn api.secret
      → AreOwn (start x cfg ticks api disk).0.secret
  unfolding start
  start-AreOwn [] api disk h own = own
  start-AreOwn (t ∷ ticks) api disk h own =
      let e = run (ensure_certs x cfg t.now t.draws) t.fates api disk in
      start-AreOwn ticks e.api e.disk h.1
        (ensure_certs-AreOwn t.now t.draws t.fates api disk h.0 own)
