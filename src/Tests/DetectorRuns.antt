-- ===== src/Tests/DetectorRuns.antt =====
-- The texts that the detectors read, at concrete inputs.
use kompakt.Prelude.{false, String, ◌≡◌, refl, some, none, [], ◌∷◌, map, arith}
use kompakt.Text.{trim_left, trim_right, is_space}
use kompakt.Text.Laws.{occurs}
use kompakt.Regex.Words.{is_word}
use kompakt.Inflight.ClusterAutoscaler.{pending_nodes, parse_ca_status}
use kompakt.Inflight.ClusterAutoscaler.Printed.{
  Group, IsPlain, status_text, all_missing, parse_ca_status-status_text,
}
use kompakt.Inflight.GoatScaler.{Provision}
use kompakt.Inflight.GoatScaler.Message.{parse_provision_node_message}
use kompakt.Inflight.GoatScaler.Message.Printed.{message, parse_provision_node_message-message}
use kompakt.Inflight.GoatScaler.Message.Sound.{Announces, parse_provision_node_message-Announces}
use kompakt.Prelude.{List}
use kompakt.Int.{ℤ, pos, negsuc, ◌+ℤ◌}
use kompakt.Kube.{Node}
use kompakt.Inflight.NotReady
use kompakt.Inflight.NotReady.Window.{all_that, is_arriving, detect-exact}
use kompakt.Tests.RuleSamples.{milli}

parse_provision_node_message-message_example :
    parse_provision_node_message (message "task-1" "cn-a" "ecs.gn6i" "2024-01-01 10:00:00")
    ≡ some (record { node_name = "task-1"; zone = "cn-a"; instance_type = "ecs.gn6i" })
unfolding is_word
parse_provision_node_message-message_example =
    parse_provision_node_message-message "task-1" "cn-a" "ecs.gn6i" "2024-01-01 10:00:00" refl refl
      refl refl

abbrev task_2 : Provision
task_2 = record { node_name = "task-2"; zone = "b"; instance_type = "small" }

-- The text need not begin the message.
abbrev retry_message : String
retry_message =
    "Retry: Provision node task-2 in Zone: b with InstanceType: small, Triggered time now"

run_message : parse_provision_node_message retry_message ≡ some task_2
unfolding parse_provision_node_message
run_message = refl

run_other_message : parse_provision_node_message "Provision node in Zone: b" ≡ none
unfolding parse_provision_node_message
run_other_message = refl

parse_provision_node_message-Announces_example : Announces retry_message task_2
parse_provision_node_message-Announces_example =
    parse_provision_node_message-Announces retry_message task_2 run_message

abbrev gpu_group : Group
gpu_group = record { name = "gpu pool"; ready = 1; target = 3 }

abbrev cpu_group : Group
cpu_group = record { name = "cpu"; ready = 4; target = 4 }

gpu_group-IsPlain : IsPlain gpu_group
unfolding trim_left trim_right is_space occurs
gpu_group-IsPlain = record {
  filled = refl;
  left = refl;
  right = refl;
  one_line = refl;
  ready_fits = omega arith;
  target_fits = omega arith;
}

cpu_group-IsPlain : IsPlain cpu_group
unfolding trim_left trim_right is_space occurs
cpu_group-IsPlain = record {
  filled = refl;
  left = refl;
  right = refl;
  one_line = refl;
  ready_fits = omega arith;
  target_fits = omega arith;
}

parse_ca_status-status_text_example :
    parse_ca_status (status_text (gpu_group ∷ cpu_group ∷ []))
    ≡ all_missing (gpu_group ∷ cpu_group ∷ [])
parse_ca_status-status_text_example =
    parse_ca_status-status_text (gpu_group ∷ cpu_group ∷ [])
      (gpu_group-IsPlain, (cpu_group-IsPlain, tt))

run_status :
    map (λ n. n.name) (all_missing (gpu_group ∷ cpu_group ∷ []))
    ≡ "gpu pool-pending-0" ∷ "gpu pool-pending-1" ∷ []
unfolding pending_nodes
run_status = refl

abbrev node_with : ℤ → Node
node_with last_transition = record {
  name = "new";
  labels = [];
  taints = [];
  allocatable = ("cpu", "4") ∷ [];
  conditions =
      (record { kind = "Ready"; status = "False"; last_transition = last_transition }) ∷ [];
  creation = pos 1_700_000_000_000_000_000;
  deleting = false;
}

-- One that was ready, one that never was, and one whose change has no date.
abbrev unready : List Node
unready =
    node_with (pos 1_700_000_100_000_000_000)
    ∷ node_with (pos 1_700_000_005_000_000_000)
    ∷ node_with (negsuc 62_135_596_799_999_999_999)
    ∷ []

abbrev later : ℤ
later = pos 1_700_000_200_000_000_000

detect-exact_example :
    NotReady.detect milli later (some unready)
    ≡ map (NotReady.inflight_of milli later) (all_that (is_arriving milli later) unready)
detect-exact_example = detect-exact milli later unready

run_unready :
    all_that (is_arriving milli later) unready
    ≡ node_with (pos 1_700_000_005_000_000_000) ∷ node_with (negsuc 62_135_596_799_999_999_999) ∷ []
unfolding ◌+ℤ◌
run_unready = refl
