-- ===== src/Inflight/ClusterAutoscaler.antt =====
-- internal/inflight/detector.go: pending nodes from the status text of the cluster autoscaler. The
-- ConfigMap's data is `none` where the reader fails.
pub mod Health
pub mod Printed
use kompakt.Prelude.{
  ℕ, zero, suc, ◌+◌, String, ◌==◌, Option, none, some, List, [], ◌∷◌, ◌++◌, not, ◌&&◌,
  if◌then◌else◌,
}
use kompakt.Int.{ℤ, pos, pos_part, sub64}
use kompakt.Text.{◌+++◌, has_prefix, contains, trim_space, trim_prefix, after_first, split}
use kompakt.Strconv.{atoi}
use kompakt.Dict.{Dict, lookup}
use kompakt.Inflight.{InflightNode}
use kompakt.Controller.Conditions.{show}

-- `extractValue`
unfoldable pub extract_value : String → String → String
unfolding trim_space after_first
extract_value s prefix = elim (after_first s prefix) [ none ↦ "" | some rest ↦ trim_space rest ]

-- The loop of `parseHealthLine`, on `ready` and `target`.
unfoldable pub health_loop : List String → ℤ × ℤ → ℤ × ℤ
unfolding extract_value atoi contains trim_space
health_loop [] counts = counts
health_loop (part ∷ parts) (ready, target) =
    let p = trim_space part in
    health_loop parts (
      (if contains p "ready=" then atoi (extract_value p "ready=") else ready),
      (if contains p "cloudProviderTarget="
          then atoi (extract_value p "cloudProviderTarget=")
          else target),
    )

-- `parseHealthLine`
unfoldable pub parse_health_line : String → ℤ × ℤ
unfolding health_loop split
parse_health_line line = health_loop (split line b',') (pos 0, pos 0)

-- The inner loop of `parseCAStatus`: the nodes `i`, `i + 1`, ... of a group.
unfoldable pub pending_nodes : String → ℕ → ℕ → List InflightNode
unfolding show
pending_nodes group i zero = []
pending_nodes group i (suc left) =
    (record {
      name = group +++ ("-pending-" +++ show i);
      allocatable = [];
      labels = [];
      instance_type = "";
      detected_at = none;
    })
    ∷ pending_nodes group (i + 1) left

-- The nodes that a health line adds for a group.
unfoldable pub health_nodes : String → String → List InflightNode
unfolding parse_health_line pending_nodes
health_nodes group line =
    let (ready, target) = parse_health_line line in
    pending_nodes group 0 (pos_part (sub64 target ready))

-- The loop of `parseCAStatus`, on the current group.
unfoldable pub status_loop : List String → String → List InflightNode
unfolding health_nodes has_prefix trim_space trim_prefix
status_loop [] group = []
status_loop (raw ∷ lines) group =
    let line = trim_space raw in
    if has_prefix line "Name:"
    then status_loop lines (trim_space (trim_prefix line "Name:"))
    else if has_prefix line "Health:" && not (group == "")
    then health_nodes group line ++ status_loop lines ""
    else status_loop lines group

-- `parseCAStatus`
unfoldable pub parse_ca_status : String → List InflightNode
unfolding status_loop split
parse_ca_status status = status_loop (split status 10) ""

-- `(*ClusterAutoscalerDetector).Detect`
unfoldable pub detect : Option (Dict String) → List InflightNode
unfolding parse_ca_status lookup
detect none = []
detect (some cm) = elim (lookup "status" cm) [ none ↦ [] | some status ↦ parse_ca_status status ]

-- `Name`
abbrev pub detector_name : String
detector_name = "cluster-autoscaler"
