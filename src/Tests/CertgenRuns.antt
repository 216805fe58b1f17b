-- ===== src/Tests/CertgenRuns.antt =====
-- The certificate provisioner at concrete inputs.
use kompakt.Prelude.{
  suc, ◌≡◌, refl, arith, ◌⊎◌, Bool, true, Option, none, some, List, [], ◌∷◌, map, All,
}
use kompakt.Int.{pos, ◌+ℤ◌, ltb_ℤ}
use kompakt.Dict.{Dict, lookup, insert}
use kompakt.Clock.{seconds}
use kompakt.Certgen.Store.{Secret, Fate, works, fails, done, run}
use kompakt.Certgen.Generate.{Certificate, Certs, generate_certs}
use kompakt.Certgen.Valid.{certs_valid}
use kompakt.Certgen.Provision.{
  patching, data_of, upsert_secret, write_files, patch_webhook_ca_bundle, provision, ensure_with,
  ensure_certs, Tick, start, readyz_check, detect_namespace,
}
use kompakt.Certgen.Provisioned.{IsProvisioned, IsServed, ensure_certs-IsProvisioned}
use kompakt.Certgen.Lifetime.{renewal, certs_valid-generated}
use kompakt.Certgen.Stale.{patching_lem}
use kompakt.Certgen.Lasting.{start-readyz_check}
use kompakt.Certgen.Race.{interleave, both, ensure_certs-interleave}
use kompakt.Tests.CertgenSamples.{
  plain, plain-IsX509, config, draws_from, certs_from, generate_certs-plain, bare, fresh,
}

settled_run : (run (ensure_certs plain config (pos 5) (draws_from 3)) [] fresh []).value ≡ none
unfolding run ensure_certs ensure_with provision generate_certs upsert_secret write_files
    patch_webhook_ca_bundle
settled_run = refl

ensure_certs-IsProvisioned_example :
    let e = run (ensure_certs plain config (pos 5) (draws_from 3)) [] fresh [] in
    ((secret : Secret (Option Certificate)) × IsServed plain config (pos 5) secret fresh e)
    ⊎ ((certs : Certs (Option Certificate)) × (generate_certs plain config.service_name
            config.namespace
            (draws_from 3)
          ≡ some certs)
        × IsProvisioned certs fresh e)
ensure_certs-IsProvisioned_example =
    ensure_certs-IsProvisioned plain config (pos 5) (draws_from 3) [] fresh [] settled_run

certs_valid-generated_example :
    certs_valid plain config.service_name config.namespace (pos 5) (data_of (certs_from 3))
    ≡ ltb_ℤ (pos 5) (seconds (draws_from 3).server_before +ℤ pos (renewal true))
unfolding ◌+ℤ◌
certs_valid-generated_example =
    certs_valid-generated plain plain-IsX509 config.service_name config.namespace (draws_from 3)
      (certs_from 3) true (pos 5) (generate_certs-plain 3) refl

ensure_certs-interleave_example :
    (schedule : List Bool) × let r =
        interleave schedule (both plain config (pos 5) (draws_from 3) (draws_from 4) bare [] []) in
      (r.left ≡ done none)
      × (r.right ≡ done none)
      × (r.api.secret ≡ some (record { version = 1; data_map = data_of (certs_from 4) }))
      × (r.api.hooks
          ≡ some (record {
            version = suc (suc bare.version);
            bundles = map (λ _. (certs_from 3).ca_pem) bare.bundles;
          }))
      × ((ticks : List (Tick plain config)) (disk : Dict (Option Certificate))
          → All
              (λ t. ltb_ℤ t.now (seconds (draws_from 4).server_before +ℤ pos (renewal true)) ≡ true)
              ticks
          → (start plain config ticks r.api disk).0 ≡ r.api)
unfolding ◌+ℤ◌
ensure_certs-interleave_example =
    ensure_certs-interleave plain config plain-IsX509 (pos 5) (draws_from 3) (draws_from 4)
      (certs_from 3) (certs_from 4) bare [] [] true (generate_certs-plain 3)
      (generate_certs-plain 4) refl

-- The answer of the last call, the update of the configuration, is that it failed.
abbrev last_fails : List (Fate (Option Certificate))
last_fails = works ∷ works ∷ works ∷ works ∷ works ∷ works ∷ works ∷ fails ∷ []

run_patching :
    (run (ensure_certs plain config (pos 5) (draws_from 3)) last_fails fresh []).value
    ≡ some patching
unfolding run ensure_certs ensure_with provision generate_certs upsert_secret write_files
    patch_webhook_ca_bundle
run_patching = refl

abbrev next_hour : Tick plain config
next_hour = record { now = pos 3_600_000_000_000; draws = draws_from 5; fates = [] }

patching_lem_example :
    let e = run (ensure_certs plain config (pos 5) (draws_from 3)) last_fails fresh [] in
    (start plain config (next_hour ∷ []) e.api e.disk).0 ≡ e.api
unfolding ◌+ℤ◌
patching_lem_example =
    patching_lem plain config plain-IsX509 (pos 5) (draws_from 3) true last_fails fresh []
      (next_hour ∷ []) run_patching refl (refl, tt)

run_ready :
    readyz_check plain
      (pos 5)
      (run (ensure_certs plain config (pos 5) (draws_from 3)) [] fresh []).disk
    ≡ none
unfolding readyz_check lookup insert run ensure_certs ensure_with provision generate_certs
    upsert_secret write_files patch_webhook_ca_bundle
run_ready = refl

run_namespace : detect_namespace (some "") "ops" ≡ "ops"
unfolding detect_namespace
run_namespace = refl

-- The run after one that failed at its last step.
abbrev failed_start : Tick plain config
failed_start = record { now = pos 5; draws = draws_from 3; fates = last_fails }

run_served :
    (run
      (ensure_certs plain config (pos 900_000_000) (draws_from 6))
      []
      (start plain config (failed_start ∷ []) fresh []).0
      []).value
    ≡ none
unfolding start run ensure_certs ensure_with provision generate_certs upsert_secret write_files
    patch_webhook_ca_bundle certs_valid
run_served = refl

start-readyz_check_example :
    readyz_check plain
      (pos 900_000_000)
      (run
        (ensure_certs plain config (pos 900_000_000) (draws_from 6))
        []
        (start plain config (failed_start ∷ []) fresh []).0
        []).disk
    ≡ none
unfolding ◌+ℤ◌
start-readyz_check_example =
    start-readyz_check plain config plain-IsX509 (failed_start ∷ []) fresh [] [] (pos 900_000_000)
      (draws_from 6) [] refl ((true, refl), tt) (omega arith) run_served
