-- ===== src/Certgen/Lifetime.antt =====
-- How long `certsValid` accepts what `GenerateCerts` made.
use kompakt.Prelude.{
  ℕ, String, ◌==◌, eq_refl, ◌≡◌, refl, ap, ◌∙◌, Bool, true, false, some, any, arith, if◌then◌else◌,
}
use kompakt.Int.{ℤ, pos, ◌+ℤ◌, ◌-ℤ◌, ltb_ℤ}
use kompakt.Dict.{lookup}
use kompakt.Clock.{time_sub, second, seconds, seconds-add}
use kompakt.Certgen.Generate.{
  Certificate, X509, Draws, Certs, service_dns, dns_names_of, cert_lifetime, generate_certs,
}
use kompakt.Certgen.Valid.{scaled, renew_after, renew_at, cert_ok, certs_valid}
use kompakt.Certgen.Provision.{data_of}
use kompakt.Certgen.Parts.{generate_certs-IsMade}

-- What the documentation of the packages says: a certificate that was created parses to the names and
-- the times of its template, without the parts of seconds; it and the key that it certifies, both
-- encoded, are a key pair; and a block that was encoded is not empty and decodes to its bytes.
pub record IsX509 {Key Der Pem : Type 0} (x : X509 Key Der Pem) : Type 0 where
  pub created :
      (t parent : Certificate) (key signer : Key) (der : Der)
      → x.create_certificate t parent key signer ≡ some der
      → (c : Certificate) × (x.parse_certificate der ≡ some c)
        × (c.dns_names ≡ t.dns_names)
        × (c.not_before ≡ seconds t.not_before)
        × (c.not_after ≡ seconds t.not_after)
  pub paired :
      (t parent : Certificate) (key signer : Key) (der key_der : Der)
      → x.create_certificate t parent key signer ≡ some der
      → x.marshal_key key ≡ some key_der
      → x.key_pair (x.encode_pem "CERTIFICATE" der) (x.encode_pem "EC PRIVATE KEY" key_der)
        ≡ some der
  pub decoded : (kind : String) (der : Der) → x.decode_pem (x.encode_pem kind der) ≡ some der
  pub filled : (kind : String) (der : Der) → x.is_blank (x.encode_pem kind der) ≡ false

-- The lifetime of a server's certificate, where the second of its two readings of the clock fell into
-- the next second or not, and eight tenths of it.
abbrev pub lifetime : Bool → ℕ
lifetime late = if late then 31_536_001_000_000_000 else 31_536_000_000_000_000

abbrev pub renewal : Bool → ℕ
renewal late = if late then 25_228_800_800_000_000 else 25_228_800_000_000_000

scaled-lifetime : (late : Bool) → renew_after (pos (lifetime late)) ≡ pos (renewal late)
unfolding renew_after scaled
scaled-lifetime true = refl
scaled-lifetime false = refl

abbrev pub delay : Bool → ℤ
delay late = pos (if late then second else 0)

time_sub-lifetime :
    (b : ℤ) (late : Bool) → time_sub (b +ℤ delay late +ℤ cert_lifetime) b ≡ pos (lifetime late)
unfolding time_sub ◌+ℤ◌ ◌-ℤ◌
time_sub-lifetime b late = ground arith

renew_at-template :
    (c : Certificate) (b a : ℤ) (late : Bool)
    → c.not_before ≡ seconds b
    → c.not_after ≡ seconds (a +ℤ cert_lifetime)
    → seconds a ≡ seconds b +ℤ delay late
    → renew_at c ≡ seconds b +ℤ pos (renewal late)
unfolding renew_at
renew_at-template c b a late hb ha h =
    let until = ha ∙ seconds-add a 31_536_000 ∙ ap (λ t. t +ℤ cert_lifetime) h in
    let end : ℤ = seconds b +ℤ delay late +ℤ cert_lifetime in
    ap (λ t. c.not_before +ℤ renew_after (time_sub t c.not_before)) until
    ∙ ap (λ t. t +ℤ renew_after (time_sub end t)) hb
    ∙ ap (λ d. seconds b +ℤ renew_after d) (time_sub-lifetime (seconds b) late)
    ∙ ap (λ d. seconds b +ℤ d) (scaled-lifetime late)

module _ {Key Der Pem : Type 0} (x : X509 Key Der Pem) (laws : IsX509 x) where
  cert_ok-made :
      (service_name namespace : String) (now : ℤ) (der : Der) (c : Certificate)
      → x.parse_certificate der ≡ some c
      → c.dns_names ≡ dns_names_of service_name namespace
      → cert_ok x service_name namespace now (x.encode_pem "CERTIFICATE" der)
        ≡ ltb_ℤ now (renew_at c)
  unfolding cert_ok
  cert_ok-made service_name namespace now der c parsed names =
      let named : any (λ dns. dns == service_dns service_name namespace) c.dns_names ≡ true =
        ap (any (λ dns. dns == service_dns service_name namespace)) names
        ∙ ground (arith, eq_refl (service_dns service_name namespace)) in
      ground (arith, laws.decoded "CERTIFICATE" der)

  -- The secret that holds generated certificates is valid from then on until 292 days, eight tenths
  -- of a year, after the second in which the server's certificate was made, and no longer; or until
  -- eight tenths of a second later where the clock reached the next second between its two
  -- readings.
  pub certs_valid-generated :
      (service_name namespace : String) (draws : Draws Key) (certs : Certs Pem) (late : Bool)
      (now : ℤ)
      → generate_certs x service_name namespace draws ≡ some certs
      → seconds draws.server_after ≡ seconds draws.server_before +ℤ delay late
      → certs_valid x service_name namespace now (data_of certs)
        ≡ ltb_ℤ now (seconds draws.server_before +ℤ pos (renewal late))
  unfolding certs_valid lookup
  certs_valid-generated service_name namespace draws certs late now h tick =
      let m = generate_certs-IsMade x service_name namespace draws certs h in
      let ca_der = m.ca_der in
      let der = m.server_der in
      let (c, parsed, names, before, until) = laws.created _ _ _ _ _ m.server_made in
      let ends =
        renew_at-template c draws.server_before draws.server_after late before until tick in
      ap (λ k. certs_valid x service_name namespace now (data_of k)) m.encoded
      ∙ ground (
        arith,
        laws.filled "CERTIFICATE" ca_der,
        laws.filled "CERTIFICATE" der,
        laws.filled "EC PRIVATE KEY" m.key_der,
      )
      ∙ cert_ok-made service_name namespace now der c parsed names
      ∙ ap (ltb_ℤ now) ends
