-- ===== src/Kube.antt =====
-- The fields of the Kubernetes objects that the program reads and writes. What the program leaves
-- alone (ports, volumes, owner references, ...) is left out.
use kompakt.Prelude.{String, Bool, Option, List}
use kompakt.Int.{ℤ}
use kompakt.Dict.{Dict}

-- A `resource.Quantity`, by its text; its value in thousandths is a parameter where it is used.
abbrev pub Quantity : Type 0
Quantity = String

-- An instant, in nanoseconds since the epoch; `none` is Go's zero time.
abbrev pub Time : Type 0
Time = Option ℤ

pub record Taint : Type 0 where
  pub key : String
  pub value : String
  pub effect : String

pub record Toleration : Type 0 where
  pub key : String
  pub operator : String
  pub value : String
  pub effect : String

pub record Requirement : Type 0 where
  pub key : String
  pub operator : String
  pub values : List String

pub record SelectorTerm : Type 0 where
  pub match_expressions : List Requirement
  pub match_fields : List Requirement

-- `required` is RequiredDuringSchedulingIgnoredDuringExecution, a pointer to a list of terms.
pub record NodeAffinity : Type 0 where
  pub required : Option (List SelectorTerm)

pub record Affinity : Type 0 where
  pub node_affinity : Option NodeAffinity

pub record Container : Type 0 where
  pub requests : Dict Quantity

pub record Pod : Type 0 where
  pub name : String
  pub namespace : String
  pub labels : Dict String
  pub annotations : Dict String
  pub creation : Time
  pub scheduling_gates : List String
  pub node_selector : Dict String
  pub tolerations : List Toleration
  pub containers : List Container
  pub affinity : Option Affinity
  pub node_name : String
  pub phase : String

pub record NodeCondition : Type 0 where
  pub kind : String
  pub status : String
  pub last_transition : ℤ

pub record Node : Type 0 where
  pub name : String
  pub labels : Dict String
  pub taints : List Taint
  pub allocatable : Dict Quantity
  pub conditions : List NodeCondition
  pub creation : ℤ
  pub deleting : Bool

-- The answer to a `Get`.
pub data Fetched (A : Type 0) : Type 0 where
  found : A → Fetched A
  not_found : Fetched A
  fetch_error : Fetched A
