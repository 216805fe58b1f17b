-- ===== src/Certgen/Store.antt =====
-- The calls that the certificate provisioner makes of the API server and of the file system, as
-- programs that wait for answers, and what these calls do to a store. A `Secret` and a webhook
-- configuration carry the version that the API server gives them; an update that names another
-- version is refused. A failed write of a file may leave any content.
use kompakt.Prelude.{
  ◌≡◌, refl, ℕ, suc, String, Bool, true, false, Option, none, some, List, [], ◌∷◌, nat_eq,
  if◌then◌else◌,
}
use kompakt.Dict.{Dict, insert}
use kompakt.Kube.{Fetched, found, not_found, fetch_error}

-- `corev1.Secret`, and the `caBundle`s of a MutatingWebhookConfiguration's webhooks.
pub record Secret (Pem : Type 0) : Type 0 where
  pub version : ℕ
  pub data_map : Dict Pem

pub record Hooks (Pem : Type 0) : Type 0 where
  pub version : ℕ
  pub bundles : List Pem

-- A program: each call waits for its answer, which is whether it worked or what was read.
pub data Program (Pem A : Type 0) : Type 0 where
  done : A → Program Pem A
  get_secret : (Fetched (Secret Pem) → Program Pem A) → Program Pem A
  create_secret : Dict Pem → (Bool → Program Pem A) → Program Pem A
  update_secret : Secret Pem → (Bool → Program Pem A) → Program Pem A
  make_dir : (Bool → Program Pem A) → Program Pem A
  write_file : String → Pem → (Bool → Program Pem A) → Program Pem A
  get_hooks : (Option (Hooks Pem) → Program Pem A) → Program Pem A
  update_hooks : Hooks Pem → (Bool → Program Pem A) → Program Pem A

infixl 5 ◌>>=◌
abbrev pub ◌>>=◌ : {Pem A B : Type 0} → Program Pem A → (A → Program Pem B) → Program Pem B
done a >>= f = f a
get_secret k >>= f = get_secret (λ x. k x >>= f)
create_secret d k >>= f = create_secret d (λ x. k x >>= f)
update_secret s k >>= f = update_secret s (λ x. k x >>= f)
make_dir k >>= f = make_dir (λ x. k x >>= f)
write_file name pem k >>= f = write_file name pem (λ x. k x >>= f)
get_hooks k >>= f = get_hooks (λ x. k x >>= f)
update_hooks h k >>= f = update_hooks h (λ x. k x >>= f)

-- What the API server holds, of which all replicas see the same.
pub record Api (Pem : Type 0) : Type 0 where
  pub secret : Option (Secret Pem)
  pub hooks : Option (Hooks Pem)

-- How a call goes: it works, it fails and does nothing, it takes effect and its answer is lost, or, if it
-- writes a file, it fails and leaves that content.
pub data Fate (Pem : Type 0) : Type 0 where
  works fails loses : Fate Pem
  tears : Pem → Fate Pem

-- Where a program that ran alone ended.
pub record Ended (Pem A : Type 0) : Type 0 where
  pub value : A
  pub fates : List (Fate Pem)
  pub api : Api Pem
  pub disk : Dict Pem

abbrev pub is_answered : {Pem : Type 0} → Fate Pem → Bool
is_answered works = true
is_answered _ = false

-- The fate of the next call; calls behind the end of the list work.
abbrev pub next : {Pem : Type 0} → List (Fate Pem) → Fate Pem
next [] = works
next (f ∷ _) = f

abbrev pub later : {Pem : Type 0} → List (Fate Pem) → List (Fate Pem)
later [] = []
later (_ ∷ fs) = fs

module _ {Pem : Type 0} where
  abbrev pub create : Dict Pem → Api Pem → Bool × Api Pem
  create d api = elim api.secret [
    | some _ ↦ (false, api)
    | none ↦ (true, record api { secret = some (record { version = 0; data_map = d }) })
  ]

  abbrev pub update : Secret Pem → Api Pem → Bool × Api Pem
  update s api = elim api.secret [
    | none ↦ (false, api)
    | some old ↦
        if nat_eq old.version s.version
        then (
          true,
          record api {
            secret = some (record { version = suc old.version; data_map = s.data_map });
          },
        )
        else (false, api)
  ]

  abbrev pub patch : Hooks Pem → Api Pem → Bool × Api Pem
  patch h api = elim api.hooks [
    | none ↦ (false, api)
    | some old ↦
        if nat_eq old.version h.version
        then (
          true,
          record api { hooks = some (record { version = suc old.version; bundles = h.bundles }) },
        )
        else (false, api)
  ]

  -- A call that changes the API server, under a fate: its answer and its effect.
  abbrev pub under : Fate Pem → Bool × Api Pem → Api Pem → Bool × Api Pem
  under works r api = r
  under fails r api = (false, api)
  under loses r api = (false, r.1)
  under (tears rest) r api = (false, api)

  abbrev pub fetched : Fate Pem → Option (Secret Pem) → Fetched (Secret Pem)
  fetched works none = not_found
  fetched works (some s) = found s
  fetched _ _ = fetch_error

  abbrev pub fetched_hooks : Fate Pem → Option (Hooks Pem) → Option (Hooks Pem)
  fetched_hooks works h = h
  fetched_hooks _ _ = none

  abbrev pub stored : Fate Pem → String → Pem → Dict Pem → Dict Pem
  stored fails name pem disk = disk
  stored (tears rest) name pem disk = insert name rest disk
  stored _ name pem disk = insert name pem disk

  -- One call of a program, on the API server and a replica's files.
  unfoldable pub step :
      {A : Type 0}
      → Fate Pem
      → Program Pem A
      → Api Pem
      → Dict Pem
      → Program Pem A × Api Pem × Dict Pem
  unfolding insert
  step fate (done a) api disk = (done a, api, disk)
  step fate (get_secret k) api disk = (k (fetched fate api.secret), api, disk)
  step fate (create_secret d k) api disk =
      let (answer, api') = under fate (create d api) api in (k answer, api', disk)
  step fate (update_secret s k) api disk =
      let (answer, api') = under fate (update s api) api in (k answer, api', disk)
  step fate (make_dir k) api disk = (k (is_answered fate), api, disk)
  step fate (write_file name pem k) api disk =
      (k (is_answered fate), api, stored fate name pem disk)
  step fate (get_hooks k) api disk = (k (fetched_hooks fate api.hooks), api, disk)
  step fate (update_hooks h k) api disk =
      let (answer, api') = under fate (patch h api) api in (k answer, api', disk)

  -- A program alone, from its first call to its end: what it returns, the fates behind those of its
  -- calls, the API server and the replica's files.
  unfoldable pub run :
      {A : Type 0} → Program Pem A → List (Fate Pem) → Api Pem → Dict Pem → Ended Pem A
  unfolding insert
  run (done a) fs api disk = record { value = a; fates = fs; api = api; disk = disk }
  run (get_secret k) fs api disk = run (k (fetched (next fs) api.secret)) (later fs) api disk
  run (create_secret d k) fs api disk =
      let (answer, api') = under (next fs) (create d api) api in run (k answer) (later fs) api' disk
  run (update_secret s k) fs api disk =
      let (answer, api') = under (next fs) (update s api) api in run (k answer) (later fs) api' disk
  run (make_dir k) fs api disk = run (k (is_answered (next fs))) (later fs) api disk
  run (write_file name pem k) fs api disk =
      run (k (is_answered (next fs))) (later fs) api (stored (next fs) name pem disk)
  run (get_hooks k) fs api disk = run (k (fetched_hooks (next fs) api.hooks)) (later fs) api disk
  run (update_hooks h k) fs api disk =
      let (answer, api') = under (next fs) (patch h api) api in run (k answer) (later fs) api' disk

  -- A program behind another runs where that one ended.
  pub run-bind :
      {A B : Type 0} (p : Program Pem A) (f : A → Program Pem B) (fs : List (Fate Pem))
      (api : Api Pem) (disk : Dict Pem)
      → run (p >>= f) fs api disk
        ≡ (let e = run p fs api disk in run (f e.value) e.fates e.api e.disk)
  unfolding run
  run-bind (done a) f fs api disk = refl
  run-bind (get_secret k) f fs api disk = run-bind (k _) f (later fs) api disk
  run-bind (create_secret d k) f fs api disk =
      let (answer, api') = under (next fs) (create d api) api in
      run-bind (k answer) f (later fs) api' disk
  run-bind (update_secret s k) f fs api disk =
      let (answer, api') = under (next fs) (update s api) api in
      run-bind (k answer) f (later fs) api' disk
  run-bind (make_dir k) f fs api disk = run-bind (k _) f (later fs) api disk
  run-bind (write_file name pem k) f fs api disk = run-bind (k _) f (later fs) api _
  run-bind (get_hooks k) f fs api disk = run-bind (k _) f (later fs) api disk
  run-bind (update_hooks h k) f fs api disk =
      let (answer, api') = under (next fs) (patch h api) api in
      run-bind (k answer) f (later fs) api' disk
