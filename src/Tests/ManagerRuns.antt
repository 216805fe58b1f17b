-- ===== src/Tests/ManagerRuns.antt =====
-- The manager's start, and a pod's way from the webhook to the controller, at concrete inputs.
use kompakt.Prelude.{
  String, ◌==◌, ◌&&◌, ◌≡◌, refl, true, false, Option, some, none, [], if◌then◌else◌,
}
use kompakt.Int.{ℤ, pos, ◌+ℤ◌, ltb_ℤ}
use kompakt.Clock.{seconds}
use kompakt.Dict.{lookup, get_or}
use kompakt.Kube.{found, fetch_error, Pod}
use kompakt.Api.{PackingProfile}
use kompakt.Controller.Gates.{label_profile}
use kompakt.Controller.Reconcile.{Cluster, Reconciler, reconcile}
use kompakt.Controller.Reconcile.Progress.{IsProgress}
use kompakt.Webhook.{patched, handle}
use kompakt.Certgen.Store.{Ended, run}
use kompakt.Certgen.Generate.{Certificate, cert_lifetime, generate_certs}
use kompakt.Certgen.Provision.{
  expired, readyz_check, ensure_certs, ensure_with, provision, upsert_secret, write_files,
  patch_webhook_ca_bundle,
}
use kompakt.Controller.Sync.{first_detection}
use kompakt.Manager.{boot, detections}
use kompakt.Manager.Main.{Answers, Ending, run_manager, main}
use kompakt.Manager.Start.{is_none, IsComplete, main-starts}
use kompakt.Manager.Handoff.{handle-IsProgress}
use kompakt.Tests.RuleSamples.{milli, plain_pod, sample_profile}
use kompakt.Tests.CertgenSamples.{plain, plain-IsX509, draws_from, fresh}

started :
    (run (boot plain (some "kompakt-system") "" (pos 5) (draws_from 3)) [] fresh []).value ≡ true
unfolding run boot ensure_certs ensure_with provision generate_certs upsert_secret write_files
    patch_webhook_ca_bundle
started = refl

abbrev all_work : Answers
all_work = record {
  config = true;
  typed_client = true;
  manager = true;
  healthz_check = true;
  readyz_check = true;
  runnable = true;
  controller = true;
  start = true;
}

abbrev start_of : Answers → Ended (Option Certificate) Ending
start_of a = run (main plain a true (some "kompakt-system") "" (pos 5) (draws_from 3)) [] fresh []

main-starts_example :
    let e = start_of all_work in
    (is_none e.value.failure ≡ (e.value.starts && true))
    × (e.value.starts ≡ true
        → IsComplete true e.value
          × (readyz_check plain (pos 9) e.disk ≡ (
              if ltb_ℤ (seconds ((draws_from 3).server_after +ℤ cert_lifetime)) (pos 9)
              then some expired
              else none)))
main-starts_example =
    main-starts plain all_work true (some "kompakt-system") "" (pos 5) (draws_from 3) [] fresh []
      plain-IsX509 (pos 9) refl

run_main :
    ((start_of all_work).value.failure ≡ none)
    × ((start_of (record all_work { controller = false })).value.failure
        ≡ some "unable to set up controller")
unfolding run main run_manager boot ensure_certs ensure_with provision generate_certs upsert_secret
    write_files patch_webhook_ca_bundle
run_main = (refl, refl)

abbrev decode : String → Option Pod
decode raw = if raw == "pod" then some plain_pod else none

abbrev encode : Pod → Option String
encode pod = some "gated pod"

abbrev profile_of : String → Option PackingProfile
profile_of name = if name == "gpu" then some sample_profile else none

abbrev parse : String → Option ℤ
parse s = none

run_patched : handle decode encode profile_of "0a1b2c3d" "pod" ≡ patched "pod" "gated pod"
unfolding handle lookup get_or
run_patched = refl

handle-IsProgress_example :
    (pod' : Pod) × (name : String) × (encode pod' ≡ some "gated pod")
    × (lookup label_profile pod'.labels ≡ some name)
    × ((c : Cluster) (r : Reconciler)
        → c.pod ≡ found pod'
        → ((c.profiles name ≡ fetch_error) → ⊥)
        → IsProgress c (reconcile milli parse c r))
handle-IsProgress_example =
    handle-IsProgress milli parse decode encode profile_of "0a1b2c3d" "pod" "pod" "gated pod"
      run_patched

-- No signal at all.
run_no_signal :
    first_detection (
      detections milli
        (pos 0)
        false
        (record { status = none; events = none; unfiltered = none; nodes = none }))
    ≡ none
unfolding first_detection detections
run_no_signal = refl
