-- ===== src/Inflight.antt =====
-- internal/inflight: the detectors of nodes that are on their way.
pub mod NotReady
pub mod ClusterAutoscaler
pub mod GoatScaler
use kompakt.Prelude.{
  ℕ, String, Option, none, some, List, [], ◌∷◌, ltb, leb, if◌then◌else◌, ◌^◌, ◌-◌,
}
use kompakt.Int.{ℤ, pos, negsuc, ◌-ℤ◌, max_int64, ltb_ℤ}
use kompakt.Dict.{Dict}
use kompakt.Kube.{Time}

-- `InflightNode`
pub record InflightNode : Type 0 where
  pub name : String
  pub allocatable : Dict ℤ
  pub labels : Dict String
  pub instance_type : String
  pub detected_at : Time
