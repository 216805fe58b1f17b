-- ===== src/Certgen/Generate.antt =====
-- `GenerateCerts` of internal/certgen/provisioner.go. The packages crypto/x509, crypto/ecdsa, crypto/tls
-- and encoding/pem, the random source and the clock are not code of the repository: the operations
-- are an `X509`, and a `Draws` has the keys, the serial numbers and the readings of the clock in the
-- order in which a call takes them.
use kompakt.Prelude.{ℕ, String, Bool, true, false, Option, none, some, List, [], ◌∷◌}
use kompakt.Int.{ℤ, pos, ◌+ℤ◌}
use kompakt.Text.{◌+++◌}

-- The fields of an `x509.Certificate` that the program sets or reads; times in nanoseconds.
pub record Certificate : Type 0 where
  pub serial_number : ℕ
  pub common_name : String
  pub organization : List String
  pub dns_names : List String
  pub not_before : ℤ
  pub not_after : ℤ
  pub key_usage : List String
  pub ext_key_usage : List String
  pub is_ca : Bool
  pub basic_constraints_valid : Bool

-- `x509.CreateCertificate` takes the template, the parent, the key that is certified and the key that
-- signs; `decode_pem` is the first block's bytes, and `key_pair` the first certificate of a
-- `tls.X509KeyPair`. An error, or no block, is `none`.
pub record X509 (Key Der Pem : Type 0) : Type 0 where
  pub create_certificate : Certificate → Certificate → Key → Key → Option Der
  pub parse_certificate : Der → Option Certificate
  pub marshal_key : Key → Option Der
  pub encode_pem : String → Der → Pem
  pub decode_pem : Pem → Option Der
  pub key_pair : Pem → Pem → Option Der
  pub is_blank : Pem → Bool
  pub nil_pem : Pem

pub record Draws (Key : Type 0) : Type 0 where
  pub ca_key : Option Key
  pub ca_serial : Option ℕ
  pub ca_before : ℤ
  pub ca_after : ℤ
  pub server_key : Option Key
  pub server_serial : Option ℕ
  pub server_before : ℤ
  pub server_after : ℤ

-- `caPEM`, `certPEM`, `keyPEM`
pub record Certs (Pem : Type 0) : Type 0 where
  pub ca_pem : Pem
  pub cert_pem : Pem
  pub key_pem : Pem

abbrev pub ca_lifetime : ℤ
ca_lifetime = pos 315_360_000_000_000_000

abbrev pub cert_lifetime : ℤ
cert_lifetime = pos 31_536_000_000_000_000

-- The second of the server's names, which `certsValid` expects.
abbrev pub service_dns : String → String → String
service_dns service_name namespace = service_name +++ ("." +++ (namespace +++ ".svc"))

-- `dnsNames`
abbrev pub dns_names_of : String → String → List String
dns_names_of service_name namespace =
    service_name
    ∷ service_dns service_name namespace
    ∷ (service_name +++ ("." +++ (namespace +++ ".svc.cluster.local")))
    ∷ []

-- `caTemplate`
abbrev pub ca_template : String → ℕ → ℤ → ℤ → Certificate
ca_template service_name serial before after = record {
  serial_number = serial;
  common_name = service_name +++ "-ca";
  organization = "kompakt" ∷ [];
  dns_names = [];
  not_before = before;
  not_after = after +ℤ ca_lifetime;
  key_usage = "CertSign" ∷ "CRLSign" ∷ [];
  ext_key_usage = [];
  is_ca = true;
  basic_constraints_valid = true;
}

-- `serverTemplate`
abbrev pub server_template : String → String → ℕ → ℤ → ℤ → Certificate
server_template service_name namespace serial before after = record {
  serial_number = serial;
  common_name = service_dns service_name namespace;
  organization = [];
  dns_names = dns_names_of service_name namespace;
  not_before = before;
  not_after = after +ℤ cert_lifetime;
  key_usage = "DigitalSignature" ∷ "KeyEncipherment" ∷ [];
  ext_key_usage = "ServerAuth" ∷ [];
  is_ca = false;
  basic_constraints_valid = false;
}

infixl 5 ◌>>=◌
abbrev pub ◌>>=◌ : {A B : Type 0} → Option A → (A → Option B) → Option B
none >>= f = none
some a >>= f = f a

module _ {Key Der Pem : Type 0} (x : X509 Key Der Pem) where
  -- `GenerateCerts`
  unfoldable pub generate_certs : String → String → Draws Key → Option (Certs Pem)
  generate_certs service_name namespace draws = do
    ca_key ← draws.ca_key
    ca_serial ← draws.ca_serial
    let template = ca_template service_name ca_serial draws.ca_before draws.ca_after
    ca_der ← x.create_certificate template template ca_key ca_key
    ca_cert ← x.parse_certificate ca_der
    server_key ← draws.server_key
    server_serial ← draws.server_serial
    server_der ←
        x.create_certificate
          (server_template service_name namespace server_serial draws.server_before
            draws.server_after)
          ca_cert server_key ca_key
    key_der ← x.marshal_key server_key
    some (record {
      ca_pem = x.encode_pem "CERTIFICATE" ca_der;
      cert_pem = x.encode_pem "CERTIFICATE" server_der;
      key_pem = x.encode_pem "EC PRIVATE KEY" key_der;
    })
