-- ===== src/Tests/WebhookRuns.antt =====
-- The webhook at concrete inputs.
use kompakt.Prelude.{String, ◌==◌, ◌≡◌, refl, false, Option, some, none, if◌then◌else◌}
use kompakt.Dict.{lookup, get_or}
use kompakt.Kube.{Pod}
use kompakt.Api.{PackingProfile}
use kompakt.Controller.Gates.{has_kompakt_gates, release_gates_with_affinity}
use kompakt.Webhook.{gates_for, inject, patched, handle}
use kompakt.Webhook.Gating.{release-inject}
use kompakt.Tests.RuleSamples.{plain_pod, sample_profile}

abbrev decode : String → Option Pod
decode raw = if raw == "pod" then some plain_pod else none

abbrev encode : Pod → Option String
encode pod = some "gated pod"

abbrev profile_of : String → Option PackingProfile
profile_of name = if name == "gpu" then some sample_profile else none

plain-clean : has_kompakt_gates plain_pod ≡ false
unfolding has_kompakt_gates
plain-clean = refl

release-inject_example :
    (release_gates_with_affinity
      (inject plain_pod "0a1b2c3d" (gates_for sample_profile.spec.rules))
      "big"
      "capacity").scheduling_gates
    ≡ plain_pod.scheduling_gates
release-inject_example =
    release-inject plain_pod "0a1b2c3d" "big" "capacity" sample_profile.spec.rules plain-clean

run_patched : handle decode encode profile_of "0a1b2c3d" "pod" ≡ patched "pod" "gated pod"
unfolding handle lookup get_or
run_patched = refl
