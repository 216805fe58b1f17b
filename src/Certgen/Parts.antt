-- ===== src/Certgen/Parts.antt =====
-- The steps of `GenerateCerts` where it returns no error.
use kompakt.Prelude.{ℕ, String, ◌≡◌, refl, Option, none, some, arith}
use kompakt.Certgen.Generate.{
  Certificate, X509, Draws, Certs, ca_template, server_template, ◌>>=◌, generate_certs,
}

-- A chain that returned something did so at its first step.
bind-some :
    {A B : Type 0} (o : Option A) (f : A → Option B) (b : B)
    → o >>= f ≡ some b
    → (a : A) × (o ≡ some a) × (f a ≡ some b)
bind-some none f b h = absurd (ground arith)
bind-some (some a) f b h = (a, refl, h)

module _ {Key Der Pem : Type 0} (x : X509 Key Der Pem) where
  pub record IsMade (service_name namespace : String) (draws : Draws Key) (certs : Certs Pem)
      : Type 0 where
    pub ca_key : Key
    pub ca_cert : Certificate
    pub ca_der : Der
    pub server_key : Key
    pub server_serial : ℕ
    pub server_der : Der
    pub key_der : Der
    pub server_made :
        x.create_certificate
          (server_template service_name namespace server_serial draws.server_before
            draws.server_after)
          ca_cert
          server_key
          ca_key
        ≡ some server_der
    pub key_made : x.marshal_key server_key ≡ some key_der
    pub encoded : certs ≡ record {
      ca_pem = x.encode_pem "CERTIFICATE" ca_der;
      cert_pem = x.encode_pem "CERTIFICATE" server_der;
      key_pem = x.encode_pem "EC PRIVATE KEY" key_der;
    }

  pub generate_certs-IsMade :
      (service_name namespace : String) (draws : Draws Key) (certs : Certs Pem)
      → generate_certs x service_name namespace draws ≡ some certs
      → IsMade service_name namespace draws certs
  unfolding generate_certs
  generate_certs-IsMade service_name namespace draws certs h =
      let (ca_key, _, h1) = bind-some draws.ca_key _ certs h in
      let (ca_serial, _, h2) = bind-some draws.ca_serial _ certs h1 in
      let ca = ca_template service_name ca_serial draws.ca_before draws.ca_after in
      let (ca_der, _, h3) = bind-some (x.create_certificate ca ca ca_key ca_key) _ certs h2 in
      let (ca_cert, _, h4) = bind-some (x.parse_certificate ca_der) _ certs h3 in
      let (server_key, _, h5) = bind-some draws.server_key _ certs h4 in
      let (server_serial, _, h6) = bind-some draws.server_serial _ certs h5 in
      let (server_der, made, h7) =
        bind-some
          (x.create_certificate
            (server_template service_name namespace server_serial draws.server_before
              draws.server_after)
            ca_cert server_key ca_key)
          _ certs h6 in
      let (key_der, marshalled, h8) = bind-some (x.marshal_key server_key) _ certs h7 in
      record {
        ca_key = ca_key;
        ca_cert = ca_cert;
        ca_der = ca_der;
        server_key = server_key;
        server_serial = server_serial;
        server_der = server_der;
        key_der = key_der;
        server_made = made;
        key_made = marshalled;
        encoded = ground arith;
      }
