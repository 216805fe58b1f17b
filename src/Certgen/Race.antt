-- ===== src/Certgen/Race.antt =====
-- Two replicas that run `ensureCerts` at the same time: `NeedLeaderElection` is false, so each replica
-- runs the provisioner. Their calls to the API server interleave.
use kompakt.Prelude.{
  ℕ, suc, ◌≡◌, refl, ap, ◌∙◌, Bool, true, false, Option, none, some, List, [], ◌∷◌, map, nat_eq,
  All, All-impl, arith,
}
use mathlib.Core.Path.{ap₂}
use kompakt.Int.{ℤ, pos, ◌+ℤ◌, ltb_ℤ}
use kompakt.Clock.{seconds}
use kompakt.Dict.{Dict}
use kompakt.Certgen.Store.{Hooks, Program, done, Api, works, step}
use kompakt.Certgen.Generate.{X509, Draws, Certs, generate_certs}
use kompakt.Certgen.Provision.{
  Config, Failure, data_of, provision, upsert_secret, write_files, patch_webhook_ca_bundle,
  ensure_with, ensure_certs, Tick, start,
}
use kompakt.Certgen.Lifetime.{IsX509, delay, renewal, certs_valid-generated}
use kompakt.Certgen.Idle.{start-api}

-- Two replicas, each with what is left of its program and its files.
pub record Replicas (Pem : Type 0) : Type 0 where
  pub api : Api Pem
  pub left : Program Pem (Option Failure)
  pub right : Program Pem (Option Failure)
  pub left_disk : Dict Pem
  pub right_disk : Dict Pem

-- After both have found no secret: the left one creates it, the right one replaces it and patches
-- the configuration, and then the left one patches it.
abbrev turns : List Bool
turns =
    true ∷ true ∷ false ∷ false ∷ false ∷ false ∷ false ∷ false ∷ false ∷ true ∷ true ∷ true ∷ true
    ∷ true ∷ []

nat_eq_refl : (n : ℕ) → nat_eq n n ≡ true
nat_eq_refl n = ground arith

module _ {Pem : Type 0} where
  -- The next call of the left replica, or of the right one; all calls work.
  unfoldable pub advance : Bool → Replicas Pem → Replicas Pem
  unfolding step
  advance true r =
      let (p, api, disk) = step works r.left r.api r.left_disk in
      record r { api = api; left = p; left_disk = disk }
  advance false r =
      let (p, api, disk) = step works r.right r.api r.right_disk in
      record r { api = api; right = p; right_disk = disk }

  unfoldable pub interleave : List Bool → Replicas Pem → Replicas Pem
  unfolding advance
  interleave [] r = r
  interleave (turn ∷ turns) r = interleave turns (advance turn r)

  interleave-provision :
      (left right : Certs Pem) (hooks : Hooks Pem) (left_disk right_disk : Dict Pem)
      → let r = interleave turns (record {
        api = record { secret = none; hooks = some hooks };
        left = provision (some left);
        right = provision (some right);
        left_disk = left_disk;
        right_disk = right_disk;
      }) in
        (r.left ≡ done none)
        × (r.right ≡ done none)
        × (r.api.secret ≡ some (record { version = 1; data_map = data_of right }))
        × (r.api.hooks
            ≡ some (record {
              version = suc (suc hooks.version);
              bundles = map (λ _. left.ca_pem) (map (λ _. right.ca_pem) hooks.bundles);
            }))
  unfolding interleave advance step provision upsert_secret write_files patch_webhook_ca_bundle
  interleave-provision left right hooks left_disk right_disk =
      rw (nat_eq_refl hooks.version, nat_eq_refl (suc hooks.version)) (refl, refl, refl, refl)

map-map_const :
    {A : Type 0} (a b : A) (xs : List A) → map (λ _. a) (map (λ _. b) xs) ≡ map (λ _. a) xs
map-map_const a b [] = refl
map-map_const a b (x ∷ xs) = ap (λ ys. a ∷ ys) (map-map_const a b xs)

module _ {Key Der Pem : Type 0} (x : X509 Key Der Pem) (cfg : Config) where
  -- Both replicas before their first call.
  abbrev pub both : ℤ → Draws Key → Draws Key → Hooks Pem → Dict Pem → Dict Pem → Replicas Pem
  both now left_draws right_draws hooks left_disk right_disk = record {
    api = record { secret = none; hooks = some hooks };
    left = ensure_certs x cfg now left_draws;
    right = ensure_certs x cfg now right_draws;
    left_disk = left_disk;
    right_disk = right_disk;
  }

  interleave-both :
      (now : ℤ) (left_draws right_draws : Draws Key) (left right : Certs Pem) (hooks : Hooks Pem)
      (left_disk right_disk : Dict Pem)
      → generate_certs x cfg.service_name cfg.namespace left_draws ≡ some left
      → generate_certs x cfg.service_name cfg.namespace right_draws ≡ some right
      → interleave
          (true ∷ false ∷ turns)
          (both now left_draws right_draws hooks left_disk right_disk)
        ≡ interleave turns (record {
          api = record { secret = none; hooks = some hooks };
          left = provision (some left);
          right = provision (some right);
          left_disk = left_disk;
          right_disk = right_disk;
        })
  unfolding interleave advance step ensure_certs ensure_with
  interleave-both now left_draws right_draws left right hooks left_disk right_disk l r =
      ap₂
        (λ p q. interleave turns (record {
          api = record { secret = none; hooks = some hooks };
          left = provision p;
          right = provision q;
          left_disk = left_disk;
          right_disk = right_disk;
        }))
        l r

  -- Two replicas that both find no secret can interleave their calls, all of which work, so that both
  -- end without an error, the secret holds the certificates of the one, and each webhook trusts only
  -- the authority of the other; and then no later tick of `Start` changes that until the certificates
  -- are due for renewal.
  pub ensure_certs-interleave :
      IsX509 x
      → (now : ℤ) (left_draws right_draws : Draws Key) (left right : Certs Pem) (hooks : Hooks Pem)
        (left_disk right_disk : Dict Pem) (late : Bool)
      → generate_certs x cfg.service_name cfg.namespace left_draws ≡ some left
      → generate_certs x cfg.service_name cfg.namespace right_draws ≡ some right
      → seconds right_draws.server_after ≡ seconds right_draws.server_before +ℤ delay late
      → (schedule : List Bool) × let r =
            interleave schedule (both now left_draws right_draws hooks left_disk right_disk) in
          (r.left ≡ done none)
          × (r.right ≡ done none)
          × (r.api.secret ≡ some (record { version = 1; data_map = data_of right }))
          × (r.api.hooks
              ≡ some (record {
                version = suc (suc hooks.version);
                bundles = map (λ _. left.ca_pem) hooks.bundles;
              }))
          × ((ticks : List (Tick x cfg)) (disk : Dict Pem)
              → All
                  (λ t.
                    ltb_ℤ t.now (seconds right_draws.server_before +ℤ pos (renewal late)) ≡ true)
                  ticks
              → (start x cfg ticks r.api disk).0 ≡ r.api)
  ensure_certs-interleave laws now left_draws right_draws left right hooks left_disk right_disk late
        l r tick =
      let together =
        interleave-both now left_draws right_draws left right hooks left_disk right_disk l r in
      let (p, q, secret, bundles) = interleave-provision left right hooks left_disk right_disk in
      let held = ap (λ s. s.api.secret) together ∙ secret in
      (
        true ∷ false ∷ turns,
        (
          ap (λ s. s.left) together ∙ p,
          ap (λ s. s.right) together ∙ q,
          held,
          ap (λ s. s.api.hooks) together
              ∙ bundles
              ∙ ap (λ bs. some (record { version = suc (suc hooks.version); bundles = bs }))
                  (map-map_const left.ca_pem right.ca_pem hooks.bundles),
          (λ ticks disk soon. start-api x cfg ticks _ disk _ held (
              All-impl ticks
                (λ t s.
                  certs_valid-generated x laws cfg.service_name cfg.namespace right_draws right late
                    t.now r tick
                  ∙ s)
                soon)),
        ),
      )
