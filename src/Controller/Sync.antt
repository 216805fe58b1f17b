-- ===== src/Controller/Sync.antt =====
-- `syncLedger`: the ledger is rebuilt from the cluster at each reconciliation. What the API server
-- lists and what the detectors find are parameters; metrics and logging are left out.
pub mod Kept
pub mod Arriving
pub mod Carried
pub mod Bare
pub mod Standing
pub mod Lasting
pub mod Expected
use kompakt.Prelude.{
  ℕ, String, ◌==◌, Bool, true, false, Option, none, some, List, [], ◌∷◌, not, any, is_empty, ◌&&◌,
  ◌||◌, if◌then◌else◌,
}
use kompakt.Int.{ℤ, pos, add64}
use kompakt.Text.{◌+++◌}
use kompakt.Dict.{Dict, lookup, get_or, insert, missing}
use kompakt.Kube.{Quantity, Taint, Container, Pod, Node}
use kompakt.Api.{NodeGroupTemplate, DemandSource, PackingProfile}
use kompakt.Ledger.{
  Ledger, add_node, add_inflight_node, clear_nodes, clear_inflight_by_prefix, remove_inflight_node,
  update_usage, snapshot_reservations, restore_reservations,
}
use kompakt.Inflight.{InflightNode}
use kompakt.Inflight.NotReady.{milli_values}
use kompakt.Controller.Templates.{
  find_matching_template, find_template_for_pod, template_taints_to_core_taints,
}

-- A list from the API server, or the text of the error.
pub data Listing (A : Type 0) : Type 0 where
  listed : List A → Listing A
  list_error : String → Listing A

-- A detector's name and what it found: `none` for an error.
pub record Detection : Type 0 where
  pub name : String
  pub found : Option (List InflightNode)

-- The demanded extended resources that a node lacks: whether there is one.
unfoldable pub missing_resource : DemandSource → Dict ℤ → Bool
unfolding missing
missing_resource source alloc =
    source.kind == "ResourceRequest"
    && any (λ res. not (res == "cpu" || res == "memory") && missing res alloc) source.resources

-- The loop over the containers' requests of a running pod, on the usage of its node.
unfoldable pub add_usage : Dict ℤ → Dict ℤ → Dict ℤ
unfolding get_or insert
add_usage [] used = used
add_usage ((res, qty) ∷ requests) used =
    add_usage requests (insert res (add64 (get_or (pos 0) res used) qty) used)

module _ (milli_value : Quantity → ℤ) where
  -- The body of the loop over the nodes.
  unfoldable pub sync_node : PackingProfile → Node → Ledger → Ledger
  unfolding missing_resource get_or
  sync_node profile node l =
      let alloc = milli_values milli_value node.allocatable in
      let added = add_node node.name alloc node.labels node.taints l in
      let task_id = get_or "" "goatscaler.io/provision-task-id" node.labels in
      if node.deleting
      then l
      else if missing_resource profile.spec.demand_source alloc
      then l
      else if not (task_id == "")
      then remove_inflight_node (profile.name +++ ("/" +++ task_id)) added
      else added

  unfoldable pub sync_nodes : PackingProfile → List Node → Ledger → Ledger
  sync_nodes profile [] l = l
  sync_nodes profile (node ∷ nodes) l = sync_nodes profile nodes (sync_node profile node l)

  -- The loop over a pod's containers.
  unfoldable pub containers_usage : List Container → Dict ℤ → Dict ℤ
  unfolding add_usage
  containers_usage [] used = used
  containers_usage (c ∷ cs) used =
      containers_usage cs (add_usage (milli_values milli_value c.requests) used)

  -- The body of the loop over the pods, on the usage by node.
  unfoldable pub pod_usage : Pod → Dict (Dict ℤ) → Dict (Dict ℤ)
  unfolding containers_usage get_or insert
  pod_usage p usage =
      if p.node_name == ""
      then usage
      else if p.phase == "Succeeded" || p.phase == "Failed"
      then usage
      else insert p.node_name (containers_usage p.containers (get_or [] p.node_name usage)) usage

  unfoldable pub pods_usage : List Pod → Dict (Dict ℤ) → Dict (Dict ℤ)
  unfolding pod_usage
  pods_usage [] usage = usage
  pods_usage (p ∷ pods) usage = pods_usage pods (pod_usage p usage)

-- The loop over the usage.
unfoldable pub apply_usage : Dict (Dict ℤ) → Ledger → Ledger
apply_usage [] l = l
apply_usage ((node_name, used) ∷ usage) l = apply_usage usage (update_usage node_name used l)

-- The loop over the detectors: the first that found nodes, and they.
unfoldable pub first_detection : List Detection → Option (String × List InflightNode)
first_detection [] = none
first_detection (d ∷ ds) = elim d.found [
  | none ↦ first_detection ds
  | some nodes ↦ if not (is_empty nodes) then some (d.name, nodes) else first_detection ds
]

-- The template for an in-flight node: by the node, or else by the pod.
unfoldable pub template_for : Pod → InflightNode → List NodeGroupTemplate → Option NodeGroupTemplate
unfolding find_matching_template find_template_for_pod
template_for pod n templates = elim (find_matching_template n templates) [
  | some t ↦ some t
  | none ↦ find_template_for_pod pod templates
]

-- What a template fills in of an in-flight node: capacity and labels where the node has none, and
-- the taints, which it never has.
unfoldable pub enriched :
    InflightNode → Option NodeGroupTemplate → Dict ℤ × Dict String × List Taint
enriched n none = (n.allocatable, n.labels, [])
enriched n (some t) = (
  (if is_empty n.allocatable then t.allocatable else n.allocatable),
  (if is_empty n.labels then t.labels else n.labels),
  template_taints_to_core_taints t.taints,
)

-- The body of the loop over the in-flight nodes.
unfoldable pub sync_inflight_node : PackingProfile → Pod → InflightNode → Ledger → Ledger
unfolding template_for enriched
sync_inflight_node profile pod n l =
    let (alloc, labels, taints) =
      enriched n (template_for pod n profile.spec.capacity_source.node_group_templates) in
    add_inflight_node (profile.name +++ ("/" +++ n.name)) alloc labels taints l

unfoldable pub sync_inflight : PackingProfile → Pod → List InflightNode → Ledger → Ledger
sync_inflight profile pod [] l = l
sync_inflight profile pod (n ∷ ns) l =
    sync_inflight profile pod ns (sync_inflight_node profile pod n l)

-- What `syncLedger` leaves: the ledger, `activeDetectors`, and the error's text.
pub record Synced : Type 0 where
  pub ledger : Ledger
  pub active_detectors : List String
  pub error : Option String

-- The part of `syncLedger` behind the lists.
unfoldable pub sync_detected :
    PackingProfile → Pod → List Detection → Dict (Dict ℤ) → Ledger → Synced
unfolding first_detection
sync_detected profile pod detections reservations l = elim (first_detection detections) [
  | none ↦ record {
    ledger = restore_reservations reservations l;
    active_detectors = [];
    error = none;
  }
  | some (name, ns) ↦ record {
    ledger = restore_reservations reservations (sync_inflight profile pod ns l);
    active_detectors = if not (name == "") then name ∷ [] else [];
    error = none;
  }
]

-- The ledger that `syncLedger` begins to fill.
abbrev pub cleared : PackingProfile → Ledger → Ledger
cleared profile l = clear_inflight_by_prefix (profile.name +++ "/") (clear_nodes l)

-- `syncLedger`; the detectors that were active before stay so where a list fails.
unfoldable pub sync_ledger :
    (Quantity → ℤ)
    → PackingProfile
    → Pod
    → Listing Node
    → Listing Pod
    → List Detection
    → Ledger
    → List String
    → Synced
unfolding sync_detected
sync_ledger milli_value profile pod (list_error err) pods detections l active = record {
  ledger = cleared profile l;
  active_detectors = active;
  error = some err;
}
sync_ledger milli_value profile pod (listed nodes) (list_error err) detections l active = record {
  ledger = sync_nodes milli_value profile nodes (cleared profile l);
  active_detectors = active;
  error = some err;
}
sync_ledger milli_value profile pod (listed nodes) (listed pods) detections l active =
    sync_detected profile pod detections (snapshot_reservations l) (
      apply_usage (pods_usage milli_value pods [])
        (sync_nodes milli_value profile nodes (cleared profile l)))
