-- ===== src/Tests/CertgenSamples.antt =====
-- A package x509 whose certificates are their own encodings, and draws for it.
use kompakt.Prelude.{ℕ, ◌≡◌, refl, sym, true, false, Option, none, some, [], ◌∷◌}
use kompakt.Int.{pos}
use kompakt.Clock.{seconds}
use kompakt.Certgen.Store.{Hooks, Api}
use kompakt.Certgen.Generate.{
  Certificate, X509, Draws, Certs, ca_template, server_template, generate_certs,
}
use kompakt.Certgen.Lifetime.{IsX509}
use kompakt.Certgen.Provision.{Config}

abbrev pub whole_seconds : Certificate → Certificate
whole_seconds t = record t { not_before = seconds t.not_before; not_after = seconds t.not_after }

abbrev pub key_block : ℕ → Certificate
key_block key = ca_template "key" key (pos 0) (pos 0)

abbrev pub plain : X509 ℕ Certificate (Option Certificate)
plain = record {
  create_certificate = λ t parent key signer. some (whole_seconds t);
  parse_certificate = λ der. some der;
  marshal_key = λ key. some (key_block key);
  encode_pem = λ kind der. some der;
  decode_pem = λ pem. pem;
  key_pair = λ cert key. cert;
  is_blank = λ pem. elim pem [ none ↦ true | some der ↦ false ];
  nil_pem = none;
}

created :
    (t der : Certificate)
    → some (whole_seconds t) ≡ some der
    → (c : Certificate) × (some der ≡ some c)
      × (c.dns_names ≡ t.dns_names)
      × (c.not_before ≡ seconds t.not_before)
      × (c.not_after ≡ seconds t.not_after)
created t der h = (whole_seconds t, sym h, refl, refl, refl)

pub plain-IsX509 : IsX509 plain
plain-IsX509 = record {
  created = λ t parent key signer der h. created t der h;
  paired = λ t parent key signer der key_der h k. refl;
  decoded = λ kind der. refl;
  filled = λ kind der. refl;
}

abbrev pub config : Config
config = record {
  namespace = "kompakt-system";
  service_name = "kompakt-controller";
  secret_name = "kompakt-webhook-certs";
  webhook_config_name = "kompakt-webhook";
  cert_dir = "/tmp/k8s-webhook-server/serving-certs";
}

-- The clock passes a second after the first reading for the server's certificate.
abbrev pub draws_from : ℕ → Draws ℕ
draws_from serial = record {
  ca_key = some 1;
  ca_serial = some serial;
  ca_before = pos 900_000_000;
  ca_after = pos 900_000_100;
  server_key = some 2;
  server_serial = some serial;
  server_before = pos 999_999_900;
  server_after = pos 1_000_000_000;
}

abbrev pub certs_from : ℕ → Certs (Option Certificate)
certs_from serial = record {
  ca_pem =
      some (
        whole_seconds
          (ca_template "kompakt-controller" serial (pos 900_000_000) (pos 900_000_100)));
  cert_pem = some (
      whole_seconds (
        server_template "kompakt-controller" "kompakt-system" serial (pos 999_999_900)
          (pos 1_000_000_000)));
  key_pem = some (key_block 2);
}

pub generate_certs-plain :
    (serial : ℕ)
    → generate_certs plain config.service_name config.namespace (draws_from serial)
      ≡ some (certs_from serial)
unfolding generate_certs
generate_certs-plain serial = refl

-- Two webhooks without a caBundle.
abbrev pub bare : Hooks (Option Certificate)
bare = record { version = 7; bundles = none ∷ none ∷ [] }

abbrev pub fresh : Api (Option Certificate)
fresh = record { secret = none; hooks = some bare }
