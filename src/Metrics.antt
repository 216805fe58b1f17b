-- ===== src/Metrics.antt =====
-- internal/metrics/metrics.go: the Prometheus collectors, and what `WithLabelValues` takes of an update.
-- The texts of the help and the buckets are left out.
pub mod Accepted
use kompakt.Prelude.{
  ℕ, String, ◌==◌, Bool, true, false, ◌&&◌, Option, none, some, List, [], ◌∷◌, length, nat_eq, any,
  if◌then◌else◌,
}
use kompakt.Int.{ℤ}

pub data Kind : Type 0 where
  counter histogram gauge : Kind

-- A collector with the names of its labels; one without labels is no vector.
pub record Collector : Type 0 where
  pub name : String
  pub kind : Kind
  pub labels : List String

abbrev pub webhook_requests_total : Collector
webhook_requests_total = record {
  name = "kompakt_webhook_requests_total";
  kind = counter;
  labels = "operation" ∷ [];
}

abbrev pub webhook_request_duration : Collector
webhook_request_duration = record {
  name = "kompakt_webhook_request_duration_seconds";
  kind = histogram;
  labels = "operation" ∷ [];
}

abbrev pub gated_pods : Collector
gated_pods = record {
  name = "kompakt_gated_pods";
  kind = gauge;
  labels = "namespace" ∷ "profile" ∷ [];
}

abbrev pub gate_hold_duration : Collector
gate_hold_duration = record {
  name = "kompakt_gate_hold_duration_seconds";
  kind = histogram;
  labels = "profile" ∷ "reason" ∷ [];
}

abbrev pub gate_releases_total : Collector
gate_releases_total = record {
  name = "kompakt_gate_releases_total";
  kind = counter;
  labels = "profile" ∷ "reason" ∷ [];
}

abbrev pub ledger_nodes : Collector
ledger_nodes = record { name = "kompakt_ledger_nodes"; kind = gauge; labels = [] }

abbrev pub ledger_inflight_nodes : Collector
ledger_inflight_nodes = record {
  name = "kompakt_ledger_inflight_nodes";
  kind = gauge;
  labels = "source" ∷ [];
}

abbrev pub ledger_allocatable_millicores : Collector
ledger_allocatable_millicores = record {
  name = "kompakt_ledger_allocatable_millicores";
  kind = gauge;
  labels = [];
}

abbrev pub ledger_allocatable_memory_bytes : Collector
ledger_allocatable_memory_bytes = record {
  name = "kompakt_ledger_allocatable_memory_bytes";
  kind = gauge;
  labels = [];
}

abbrev pub rule_evaluations_total : Collector
rule_evaluations_total = record {
  name = "kompakt_rule_evaluations_total";
  kind = counter;
  labels = "rule" ∷ "result" ∷ [];
}

abbrev pub rule_evaluation_duration : Collector
rule_evaluation_duration = record {
  name = "kompakt_rule_evaluation_duration_seconds";
  kind = histogram;
  labels = "rule" ∷ [];
}

-- The collectors that `init` registers.
abbrev pub registered : List Collector
registered =
    webhook_requests_total ∷ webhook_request_duration ∷ gated_pods ∷ gate_hold_duration
    ∷ gate_releases_total ∷ ledger_nodes ∷ ledger_inflight_nodes ∷ ledger_allocatable_millicores
    ∷ ledger_allocatable_memory_bytes ∷ rule_evaluations_total ∷ rule_evaluation_duration ∷ []

-- An update with the values of the labels: `Inc`, `Observe` and `Set`. Durations are in nanoseconds and
-- counts as they are.
pub data Update : Type 0 where
  increment : Collector → List String → Update
  observe : Collector → List String → ℤ → Update
  set_gauge : Collector → List String → ℤ → Update

-- A value for each label, as `WithLabelValues` wants, and a collector that is registered.
abbrev pub fits : Collector → List String → Bool
fits c values =
    nat_eq (length values) (length c.labels) && any (λ (r : Collector). r.name == c.name) registered

abbrev pub is_counter : Kind → Bool
is_counter counter = true
is_counter _ = false

abbrev pub is_histogram : Kind → Bool
is_histogram histogram = true
is_histogram _ = false

abbrev pub is_gauge : Kind → Bool
is_gauge gauge = true
is_gauge _ = false

-- The update is one of a registered collector of its kind, with a value for each label.
unfoldable pub accepts : Update → Bool
accepts (increment c values) = is_counter c.kind && fits c values
accepts (observe c values d) = is_histogram c.kind && fits c values
accepts (set_gauge c values n) = is_gauge c.kind && fits c values
