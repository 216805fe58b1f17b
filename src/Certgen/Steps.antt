-- ===== src/Certgen/Steps.antt =====
-- What the parts of `provision` leave where they work, however their calls go.
use kompakt.Prelude.{
  ℕ, suc, String, ◌≡◌, refl, sym, ap, ◌∙◌, inl, inr, Bool, true, false, Option, none, some, List,
  map, Bool-cases, Option-cases, arith, if◌then◌else◌,
}
use kompakt.Dict.{Dict, insert}
use kompakt.Kube.{Fetched, found, not_found, fetch_error}
use kompakt.Certgen.Store.{
  Secret, Hooks, Program, done, make_dir, write_file, ◌>>=◌, Api, Fate, works, fails, loses, tears,
  next, later, fetched, fetched_hooks, stored, is_answered, create, update, patch, under, run,
  run-bind,
}
use kompakt.Certgen.Generate.{Certs}
use kompakt.Certgen.Provision.{
  Failure, or_fail, and_then, data_of, upsert_secret, write_files, patch_webhook_ca_bundle,
  upsert_with, patch_with,
}

differ : (f : Failure) → (some f ≡ none) → ⊥
differ f h = cc

pub clash : (false ≡ true) → ⊥
clash h = cc

module _ {Pem : Type 0} where
  -- A branch on what a program returns is taken where it ended.
  pub run-branch :
      {A : Type 0} (p : Program Pem Bool) (rest stop : Program Pem A) (fs : List (Fate Pem))
      (api : Api Pem) (disk : Dict Pem) (v : Bool)
      → let e = run p fs api disk in
        e.value ≡ v
        → run (p >>= λ fine. if fine then rest else stop) fs api disk
          ≡ run (if v then rest else stop) e.fates e.api e.disk
  run-branch p rest stop fs api disk v h =
      let e = run p fs api disk in
      run-bind p (λ fine. if fine then rest else stop) fs api disk
      ∙ ap (λ (b : Bool). run (if b then rest else stop) e.fates e.api e.disk) h

  -- A program that has to work did, and the rest ended without an error behind it.
  pub or_fail-none :
      (failure : Failure) (p : Program Pem Bool) (rest : Program Pem (Option Failure))
      (fs : List (Fate Pem)) (api : Api Pem) (disk : Dict Pem)
      → (run (or_fail failure p rest) fs api disk).value ≡ none
      → let e = run p fs api disk in
        (e.value ≡ true)
        × (run (or_fail failure p rest) fs api disk ≡ run rest e.fates e.api e.disk)
  unfolding run
  or_fail-none failure p rest fs api disk h = elim (Bool-cases (run p fs api disk).value) [
    | inl e ↦ (e, run-branch p rest (done (some failure)) fs api disk true e)
    | inr e ↦ absurd (
        differ failure (
          sym (ap (λ r. r.value) (run-branch p rest (done (some failure)) fs api disk false e))
          ∙ h))
  ]

  and_then-true :
      (p rest : Program Pem Bool) (fs : List (Fate Pem)) (api : Api Pem) (disk : Dict Pem)
      → (run (and_then p rest) fs api disk).value ≡ true
      → let e = run p fs api disk in
        (e.value ≡ true) × (run (and_then p rest) fs api disk ≡ run rest e.fates e.api e.disk)
  unfolding run
  and_then-true p rest fs api disk h = elim (Bool-cases (run p fs api disk).value) [
    | inl e ↦ (e, run-branch p rest (done false) fs api disk true e)
    | inr e ↦
        absurd
          (clash (sym (ap (λ r. r.value) (run-branch p rest (done false) fs api disk false e)) ∙ h))
  ]

  create-stores :
      (f : Fate Pem) (d : Dict Pem) (api : Api Pem)
      → let r = under f (create d api) api in
        r.0 ≡ true
        → ((v : ℕ) × (r.1.secret ≡ some (record { version = v; data_map = d })))
          × (r.1.hooks ≡ api.hooks)
  create-stores fails d api h = absurd (ground arith)
  create-stores loses d api h = absurd (ground arith)
  create-stores (tears rest) d api h = absurd (ground arith)
  create-stores works d api h = elim (Option-cases api.secret) [
    | inl e ↦ ((0, ground arith), ground arith)
    | inr (s, e) ↦ absurd (ground arith)
  ]

  update-stores :
      (f : Fate Pem) (s : Secret Pem) (api : Api Pem)
      → let r = under f (update s api) api in
        r.0 ≡ true
        → ((v : ℕ) × (r.1.secret ≡ some (record { version = v; data_map = s.data_map })))
          × (r.1.hooks ≡ api.hooks)
  update-stores fails s api h = absurd (ground arith)
  update-stores loses s api h = absurd (ground arith)
  update-stores (tears rest) s api h = absurd (ground arith)
  update-stores works s api h = elim (Option-cases api.secret) [
    | inl e ↦ absurd (ground arith)
    | inr (old, e) ↦ ((suc old.version, ground arith), ground arith)
  ]

  patch-stores :
      (f : Fate Pem) (m : Hooks Pem) (api : Api Pem)
      → let r = under f (patch m api) api in
        r.0 ≡ true
        → ((v : ℕ) × (r.1.hooks ≡ some (record { version = v; bundles = m.bundles })))
          × (r.1.secret ≡ api.secret)
  patch-stores fails m api h = absurd (ground arith)
  patch-stores loses m api h = absurd (ground arith)
  patch-stores (tears rest) m api h = absurd (ground arith)
  patch-stores works m api h = elim (Option-cases api.hooks) [
    | inl e ↦ absurd (ground arith)
    | inr (old, e) ↦ ((suc old.version, ground arith), ground arith)
  ]

  pub upsert_secret-run :
      (certs : Certs Pem) (fs : List (Fate Pem)) (api : Api Pem) (disk : Dict Pem)
      → let e = run (upsert_secret certs) fs api disk in
        e.value ≡ true
        → ((v : ℕ) × (e.api.secret ≡ some (record { version = v; data_map = data_of certs })))
          × (e.api.hooks ≡ api.hooks)
          × (e.disk ≡ disk)
  unfolding run upsert_secret
  upsert_secret-run certs fs api disk h = go (fetched (next fs) api.secret) h
    where
      go :
          (answer : Fetched (Secret Pem))
          → let e = run (upsert_with certs answer) (later fs) api disk in
            e.value ≡ true
            → ((v : ℕ) × (e.api.secret ≡ some (record { version = v; data_map = data_of certs })))
              × (e.api.hooks ≡ api.hooks)
              × (e.disk ≡ disk)
      go not_found h =
          let (s, k) = create-stores (next (later fs)) (data_of certs) api h in (s, k, refl)
      go (found existing) h =
          let (s, k) =
            update-stores (next (later fs)) (record existing { data_map = data_of certs }) api h in
          (s, k, refl)
      go fetch_error h = absurd (ground arith)

  stored-written :
      (f : Fate Pem) (name : String) (pem : Pem) (disk : Dict Pem)
      → is_answered f ≡ true
      → stored f name pem disk ≡ insert name pem disk
  stored-written works name pem disk h = refl
  stored-written fails name pem disk h = absurd (clash h)
  stored-written loses name pem disk h = absurd (clash h)
  stored-written (tears rest) name pem disk h = absurd (clash h)

  pub write_files-run :
      (cert_pem key_pem : Pem) (fs : List (Fate Pem)) (api : Api Pem) (disk : Dict Pem)
      → let e = run (write_files cert_pem key_pem) fs api disk in
        e.value ≡ true
        → (e.disk ≡ insert "tls.key" key_pem (insert "tls.crt" cert_pem disk)) × (e.api ≡ api)
  unfolding run write_files
  write_files-run cert_pem key_pem fs api disk h =
      let (made, e1) = and_then-true (make_dir done) _ fs api disk h in
      let (wrote, e2) =
        and_then-true (write_file "tls.crt" cert_pem done) (write_file "tls.key" key_pem done)
          (later fs) api disk (sym (ap (λ r. r.value) e1) ∙ h) in
      let whole = e1 ∙ e2 in
      let last = sym (ap (λ r. r.value) whole) ∙ h in
      (
        ap (λ r. r.disk) whole
            ∙ stored-written (next (later (later fs))) "tls.key" key_pem _ last
            ∙ ap (insert "tls.key" key_pem)
                (stored-written (next (later fs)) "tls.crt" cert_pem disk wrote),
        ap (λ r. r.api) whole,
      )

  pub patch_webhook_ca_bundle-run :
      (ca_pem : Pem) (fs : List (Fate Pem)) (api : Api Pem) (disk : Dict Pem)
      → let e = run (patch_webhook_ca_bundle ca_pem) fs api disk in
        e.value ≡ true
        → ((m : Hooks Pem) × (v : ℕ) × (api.hooks ≡ some m)
            × (e.api.hooks ≡ some (record { version = v; bundles = map (λ _. ca_pem) m.bundles })))
          × (e.api.secret ≡ api.secret)
          × (e.disk ≡ disk)
  unfolding run patch_webhook_ca_bundle
  patch_webhook_ca_bundle-run ca_pem fs api disk h = go (next fs) api.hooks refl h
    where
      go :
          (f : Fate Pem) (o : Option (Hooks Pem))
          → api.hooks ≡ o
          → let e = run (patch_with ca_pem (fetched_hooks f o)) (later fs) api disk in
            e.value ≡ true
            → ((m : Hooks Pem) × (v : ℕ) × (api.hooks ≡ some m)
                × (e.api.hooks
                    ≡ some (record { version = v; bundles = map (λ _. ca_pem) m.bundles })))
              × (e.api.secret ≡ api.secret)
              × (e.disk ≡ disk)
      go works none eq h = absurd (clash h)
      go fails o eq h = absurd (clash h)
      go loses o eq h = absurd (clash h)
      go (tears rest) o eq h = absurd (clash h)
      go works (some m) eq h =
          let ((v, e), k) =
            patch-stores (next (later fs)) (record m { bundles = map (λ _. ca_pem) m.bundles }) api
              h in
          ((m, v, eq, e), k, refl)
