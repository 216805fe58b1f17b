-- ===== src/Certgen/Provision.antt =====
-- `EnsureCerts`, `Start`, `ReadyzCheck` and `DetectNamespace` of internal/certgen/provisioner.go, with
-- the functions that they call. Each is a program over the calls of Certgen/Store.antt; an error is
-- the step that failed, and a nil error is `none`. The files stand under their names in the
-- directory of the configuration.
use kompakt.Prelude.{
  String, ◌==◌, Bool, false, not, Option, none, some, List, [], ◌∷◌, map, if◌then◌else◌,
}
use kompakt.Int.{ℤ, ltb_ℤ}
use kompakt.Dict.{Dict, lookup, get_or}
use kompakt.Kube.{Fetched, found, not_found, fetch_error}
use kompakt.Certgen.Store.{
  Secret, Hooks, Program, done, get_secret, create_secret, update_secret, make_dir, write_file,
  get_hooks, update_hooks, ◌>>=◌, Api, Fate, run,
}
use kompakt.Certgen.Generate.{X509, Draws, Certs, generate_certs}
use kompakt.Certgen.Valid.{certs_valid}

-- `Config`
pub record Config : Type 0 where
  pub namespace : String
  pub service_name : String
  pub secret_name : String
  pub webhook_config_name : String
  pub cert_dir : String

-- The step whose error `ensureCerts` wraps.
pub data Failure : Type 0 where
  getting generating upserting writing patching : Failure

module _ {Pem : Type 0} where
  -- `if err := p; err != nil { return ... }`, and the rest.
  abbrev pub or_fail :
      Failure → Program Pem Bool → Program Pem (Option Failure) → Program Pem (Option Failure)
  or_fail failure p rest = p >>= λ fine. if fine then rest else done (some failure)

  -- The same where the error is passed on as it is.
  abbrev pub and_then : Program Pem Bool → Program Pem Bool → Program Pem Bool
  and_then p rest = p >>= λ fine. if fine then rest else done false

  -- The secret's data.
  abbrev pub data_of : Certs Pem → Dict Pem
  data_of certs =
      ("tls.crt", certs.cert_pem) ∷ ("tls.key", certs.key_pem) ∷ ("ca.crt", certs.ca_pem) ∷ []

  -- `upsertSecret`, once the secret was asked for.
  abbrev pub upsert_with : Certs Pem → Fetched (Secret Pem) → Program Pem Bool
  upsert_with certs not_found = create_secret (data_of certs) done
  upsert_with certs fetch_error = done false
  upsert_with certs (found existing) =
      update_secret (record existing { data_map = data_of certs }) done

  -- `upsertSecret`
  unfoldable pub upsert_secret : Certs Pem → Program Pem Bool
  upsert_secret certs = get_secret (upsert_with certs)

  -- `writeFiles`
  unfoldable pub write_files : Pem → Pem → Program Pem Bool
  write_files cert_pem key_pem =
      and_then (make_dir done)
        (and_then (write_file "tls.crt" cert_pem done) (write_file "tls.key" key_pem done))

  -- `patchWebhookCABundle`, once the configuration was asked for.
  abbrev pub patch_with : Pem → Option (Hooks Pem) → Program Pem Bool
  patch_with ca_pem none = done false
  patch_with ca_pem (some mwc) =
      update_hooks (record mwc { bundles = map (λ _. ca_pem) mwc.bundles }) done

  -- `patchWebhookCABundle`
  unfoldable pub patch_webhook_ca_bundle : Pem → Program Pem Bool
  patch_webhook_ca_bundle ca_pem = get_hooks (patch_with ca_pem)

  -- `provision`, with what `GenerateCerts` returns.
  unfoldable pub provision : Option (Certs Pem) → Program Pem (Option Failure)
  unfolding upsert_secret write_files patch_webhook_ca_bundle
  provision none = done (some generating)
  provision (some certs) = or_fail upserting (upsert_secret certs) (
      or_fail writing (write_files certs.cert_pem certs.key_pem)
        (or_fail patching (patch_webhook_ca_bundle certs.ca_pem) (done none)))

module _ {Key Der Pem : Type 0} (x : X509 Key Der Pem) (cfg : Config) where
  -- `ensureCerts`, once the secret was asked for.
  unfoldable pub ensure_with : ℤ → Draws Key → Fetched (Secret Pem) → Program Pem (Option Failure)
  unfolding provision generate_certs certs_valid get_or write_files
  ensure_with now draws not_found =
      provision (generate_certs x cfg.service_name cfg.namespace draws)
  ensure_with now draws fetch_error = done (some getting)
  ensure_with now draws (found secret) =
      if not (certs_valid x cfg.service_name cfg.namespace now secret.data_map)
      then provision (generate_certs x cfg.service_name cfg.namespace draws)
      else or_fail writing
          (write_files (get_or x.nil_pem "tls.crt" secret.data_map)
            (get_or x.nil_pem "tls.key" secret.data_map))
          (done none)

  -- `ensureCerts`, at a time and with what the random source would give.
  unfoldable pub ensure_certs : ℤ → Draws Key → Program Pem (Option Failure)
  unfolding ensure_with
  ensure_certs now draws = get_secret (ensure_with now draws)

  -- A tick of `Start`: the time, the draws, and how the calls go.
  pub record Tick : Type 0 where
    pub now : ℤ
    pub draws : Draws Key
    pub fates : List (Fate Pem)

  -- The loop of `Start`: an error is logged, and the next tick tries again.
  unfoldable pub start : List Tick → Api Pem → Dict Pem → Api Pem × Dict Pem
  unfolding ensure_certs run
  start [] api disk = (api, disk)
  start (t ∷ ticks) api disk =
      let ended = run (ensure_certs t.now t.draws) t.fates api disk in
      start ticks ended.api ended.disk

-- The errors of `ReadyzCheck`.
pub data Unready : Type 0 where
  no_cert no_key bad_pair bad_cert expired : Unready

module _ {Key Der Pem : Type 0} (x : X509 Key Der Pem) where
  -- `ReadyzCheck`
  unfoldable pub readyz_check : ℤ → Dict Pem → Option Unready
  unfolding lookup
  readyz_check now disk = elim (lookup "tls.crt" disk) [
    | none ↦ some no_cert
    | some cert_pem ↦ elim (lookup "tls.key" disk) [
      | none ↦ some no_key
      | some key_pem ↦ elim (x.key_pair cert_pem key_pem) [
        | none ↦ some bad_pair
        | some der ↦ elim (x.parse_certificate der) [
          | none ↦ some bad_cert
          | some leaf ↦ if ltb_ℤ leaf.not_after now then some expired else none
        ]
      ]
    ]
  ]

-- `DetectNamespace`, with the file of the service account, if it can be read, and the variable
-- POD_NAMESPACE, which is empty where it is not set.
unfoldable pub detect_namespace : Option String → String → String
detect_namespace account variable =
    let fallback = if not (variable == "") then variable else "kompakt-system" in
    elim account [ none ↦ fallback | some ns ↦ if not (ns == "") then ns else fallback ]
