-- ===== src/Api.antt =====
-- api/v1alpha1/packingprofile_types.go: the PackingProfile resource.
use kompakt.Prelude.{String, Option, List}
use kompakt.Int.{ℤ}
use kompakt.Dict.{Dict}

pub record DemandSource : Type 0 where
  pub kind : String
  pub resources : List String
  pub additional_resources : List String
  pub annotation : String
  pub unit : String

pub record NodeGroupTaint : Type 0 where
  pub key : String
  pub value : String
  pub effect : String

pub record NodeGroupTemplate : Type 0 where
  pub name_prefix : String
  pub instance_type : String
  pub allocatable : Dict ℤ
  pub labels : Dict String
  pub taints : List NodeGroupTaint

-- The device count's label is `none` where the pointer is nil.
pub record CapacitySource : Type 0 where
  pub kind : String
  pub resources : List String
  pub label : String
  pub per_device_count : Option String
  pub node_group_templates : List NodeGroupTemplate

pub record NodeConditionRequirement : Type 0 where
  pub kind : String
  pub status : String

pub record ReadinessSignal : Type 0 where
  pub node_conditions : List NodeConditionRequirement
  pub required_labels : List String

-- A rule reference is its name.
pub record Spec : Type 0 where
  pub demand_source : DemandSource
  pub capacity_source : CapacitySource
  pub readiness_signal : ReadinessSignal
  pub rules : List String
  pub reservation_timeout : String

-- A metav1.Condition.
pub record Condition : Type 0 where
  pub kind : String
  pub status : String
  pub reason : String
  pub message : String
  pub last_transition : ℤ

-- The two counts are int32 in the source; they are set from lengths.
pub record Status : Type 0 where
  pub active_gates : ℤ
  pub inflight_nodes : ℤ
  pub active_detectors : List String
  pub conditions : List Condition

pub record PackingProfile : Type 0 where
  pub name : String
  pub spec : Spec
  pub status : Status
