-- ===== src/Tests/AnnouncedRuns.antt =====
-- An event of GOATScaler and the ledger, at concrete inputs.
use kompakt.Prelude.{◌≡◌, refl, true, false, some, none, [], ◌∷◌, arith}
use kompakt.Int.{ℤ, pos, ◌+ℤ◌}
use kompakt.Text.{◌+++◌}
use kompakt.Dict.{lookup}
use kompakt.Regex.Words.{is_word}
use kompakt.Ledger.{empty}
use kompakt.Inflight.ClusterAutoscaler
use kompakt.Inflight.GoatScaler.{Event, event_time}
use kompakt.Inflight.GoatScaler.Message.Printed.{message}
use kompakt.Controller.Sync.{listed, sync_ledger}
use kompakt.Controller.Sync.Bare.{is_some}
use kompakt.Manager.{Signals, detections}
use kompakt.Manager.Announced.{Announcement, sync_ledger-announced}
use kompakt.Tests.RuleSamples.{milli, sample_pod, sample_profile}

abbrev five_minutes_ago : Event
five_minutes_ago = record {
  component = "GOATScaler";
  reason = "ProvisionNode";
  message = message "task-1" "cn-a" "gn6i" "10:00";
  last_timestamp = some (pos 1_000_000_000_000);
  creation = none;
}

abbrev moment : ℤ
moment = pos 1_300_000_000_000

task-Announcement : Announcement moment "task-1" five_minutes_ago
unfolding is_word event_time ◌+ℤ◌
task-Announcement = record {
  zone = "cn-a";
  instance_type = "gn6i";
  triggered = "10:00";
  moment = pos 1_000_000_000_000;
  component = refl;
  reason = refl;
  text = refl;
  name_word = refl;
  zone_word = refl;
  instance_type_word = refl;
  triggered_line = refl;
  dated = refl;
  recent = omega arith;
}

abbrev signals : Signals
signals = record {
  status = none;
  events = some (five_minutes_ago ∷ []);
  unfiltered = none;
  nodes = none;
}

silent : ClusterAutoscaler.detect signals.status ≡ []
unfolding ClusterAutoscaler.detect
silent = refl

sync_ledger-announced_example :
    let l' =
      (sync_ledger milli sample_profile sample_pod
        (listed [])
        (listed [])
        (detections milli moment false signals)
        empty
        []).ledger in
    is_some (lookup (sample_profile.name +++ "/task-1") l'.inflight) ≡ true
sync_ledger-announced_example =
    sync_ledger-announced moment "task-1" sample_profile sample_pod milli false signals [] []
      five_minutes_ago task-Announcement refl silent [] [] empty []
      (record { nodes = tt; inflight = tt })
