-- ===== src/Inflight/NotReady.antt =====
-- internal/inflight/notready.go: nodes that have never been ready. The list of nodes is `none` where
-- the reader fails; the current time is a parameter.
pub mod Window
use kompakt.Prelude.{
  String, ◌==◌, Bool, true, false, Option, none, some, List, [], ◌∷◌, not, if◌then◌else◌,
}
use kompakt.Int.{ℤ, pos, sub64, ltb_ℤ}
use kompakt.Dict.{Dict, get_or}
use kompakt.Kube.{Quantity, NodeCondition, Node}
use kompakt.Inflight.{InflightNode}
use kompakt.Clock.{time_sub}

abbrev pub never_ready_threshold : ℤ
never_ready_threshold = pos 10_000_000_000

abbrev pub max_not_ready_age : ℤ
max_not_ready_age = pos 900_000_000_000

-- `delta` of `isNeverReady`, with its sign taken off.
unfoldable pub abs_delta : ℤ → ℤ
abs_delta delta = if ltb_ℤ delta (pos 0) then sub64 (pos 0) delta else delta

-- The loop of `isNeverReady`.
unfoldable pub never_ready_loop : ℤ → List NodeCondition → Bool
unfolding abs_delta time_sub
never_ready_loop creation [] = true
never_ready_loop creation (cond ∷ conds) =
    if not (cond.kind == "Ready")
    then never_ready_loop creation conds
    else if cond.status == "True"
    then false
    else not (ltb_ℤ never_ready_threshold (abs_delta (time_sub cond.last_transition creation)))

-- `isNeverReady`
unfoldable pub is_never_ready : Node → Bool
unfolding never_ready_loop
is_never_ready node = never_ready_loop node.creation node.conditions

-- The quantities of a map in thousandths.
abbrev pub milli_values : (Quantity → ℤ) → Dict Quantity → Dict ℤ
milli_values milli_value [] = []
milli_values milli_value ((res, qty) ∷ d) = (res, milli_value qty) ∷ milli_values milli_value d

module _ (milli_value : Quantity → ℤ) (now : ℤ) where
  abbrev pub inflight_of : Node → InflightNode
  inflight_of node = record {
    name = node.name;
    allocatable = milli_values milli_value node.allocatable;
    labels = node.labels;
    instance_type = get_or "" "node.kubernetes.io/instance-type" node.labels;
    detected_at = some node.creation;
  }

  -- The loop of `Detect`.
  unfoldable pub detect_loop : List Node → List InflightNode
  unfolding is_never_ready time_sub
  detect_loop [] = []
  detect_loop (node ∷ nodes) =
      if not (is_never_ready node)
      then detect_loop nodes
      else if ltb_ℤ max_not_ready_age (time_sub now node.creation)
      then detect_loop nodes
      else inflight_of node ∷ detect_loop nodes

  -- `(*NotReadyNodeDetector).Detect`
  unfoldable pub detect : Option (List Node) → List InflightNode
  unfolding detect_loop
  detect none = []
  detect (some nodes) = detect_loop nodes

-- `Name`
abbrev pub detector_name : String
detector_name = "not-ready-nodes"
