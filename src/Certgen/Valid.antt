-- ===== src/Certgen/Valid.antt =====
-- `certsValid` of internal/certgen/provisioner.go, with the part of Go's float64 that it uses: the
-- conversion from an int64 and the product by the constant 0.80, both rounded to 53 bits, ties to even.
use kompakt.Prelude.{
  ℕ, zero, suc, ◌+◌, ◌*◌, ◌/◌, ◌%◌, ◌^◌, String, ◌==◌, Bool, true, false, ◌||◌, ◌&&◌, none, some,
  any, ltb, nat_eq, if◌then◌else◌,
}
use kompakt.Int.{ℤ, pos, negsuc, ◌+ℤ◌, ltb_ℤ}
use kompakt.Clock.{time_sub}
use kompakt.Dict.{Dict, lookup}
use kompakt.Certgen.Generate.{X509, Certificate, service_dns}

-- How many of its last bits a number has more than 53. With as much fuel as the number has bits the
-- search ends by its test.
unfoldable pub excess : ℕ → ℕ → ℕ
excess zero n = 0
excess (suc fuel) n = let rest = excess fuel (n / 2) in if ltb n (2 ^ 53) then 0 else suc rest

-- A number rounded to a multiple of 2 ^ s.
unfoldable pub round_at : ℕ → ℕ → ℕ
round_at s n =
    let q = n / 2 ^ s in
    let r = n % 2 ^ s in
    if ltb (2 ^ s) (2 * r) || (nat_eq (2 ^ s) (2 * r) && nat_eq (q % 2) 1)
    then (q + 1) * 2 ^ s
    else q * 2 ^ s

-- A number below 2 ^ 128 as a float64.
unfoldable pub to_float : ℕ → ℕ
unfolding excess round_at
to_float n = round_at (excess 128 n) n

-- The float64 that is nearest to 0.80, in units of 2 ^ -53.
abbrev pub rotate_at : ℕ
rotate_at = 7_205_759_403_792_794

-- `time.Duration(float64(lifetime) * rotateAt)`
unfoldable pub scaled : ℕ → ℕ
unfolding to_float
scaled n = to_float (to_float n * rotate_at) / 2 ^ 53

unfoldable pub renew_after : ℤ → ℤ
unfolding scaled
renew_after (pos n) = pos (scaled n)
renew_after (negsuc n) = elim (scaled (suc n)) [ zero ↦ pos 0 | suc m ↦ negsuc m ]

-- `renewAt`
unfoldable pub renew_at : Certificate → ℤ
unfolding renew_after time_sub ◌+ℤ◌
renew_at cert = cert.not_before +ℤ renew_after (time_sub cert.not_after cert.not_before)

module _ {Key Der Pem : Type 0} (x : X509 Key Der Pem) where
  -- `len(secret.Data[key]) == 0`
  abbrev pub lacks : String → Dict Pem → Bool
  lacks key data_map = elim (lookup key data_map) [ none ↦ true | some pem ↦ x.is_blank pem ]

  -- The checks of the certificate itself.
  unfoldable pub cert_ok : String → String → ℤ → Pem → Bool
  unfolding renew_at
  cert_ok service_name namespace now pem = elim (x.decode_pem pem) [
    | none ↦ false
    | some der ↦ elim (x.parse_certificate der) [
      | none ↦ false
      | some cert ↦
          if any (λ dns. dns == service_dns service_name namespace) cert.dns_names
          then ltb_ℤ now (renew_at cert)
          else false
    ]
  ]

  -- `certsValid`
  unfoldable pub certs_valid : String → String → ℤ → Dict Pem → Bool
  unfolding cert_ok lookup
  certs_valid service_name namespace now data_map =
      if lacks "tls.crt" data_map || lacks "tls.key" data_map || lacks "ca.crt" data_map
      then false
      else elim (lookup "tls.crt" data_map) [
        | none ↦ false
        | some cert_pem ↦ cert_ok service_name namespace now cert_pem
      ]
