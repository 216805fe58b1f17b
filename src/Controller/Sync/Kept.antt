-- ===== src/Controller/Sync/Kept.antt =====
-- `syncLedger` and the maps of the ledger.
use kompakt.Prelude.{
  String, ◌==◌, Bool, true, false, not, Option, none, some, List, [], ◌∷◌, if◌then◌else◌,
}
use kompakt.Int.{ℤ}
use kompakt.Dict.{Dict, get_or}
use kompakt.Kube.{Quantity, Pod, Node}
use kompakt.Api.{PackingProfile}
use kompakt.Ledger.{Ledger, add_node, restore_reservations}
use kompakt.Ledger.WellFormed.{
  IsWellFormed, restore_reservations-IsWellFormed, perform-IsWellFormed, adding, adding_inflight,
  clearing, clearing_prefix, removing_inflight, updating,
}
use kompakt.Inflight.{InflightNode}
use kompakt.Inflight.NotReady.{milli_values}
use kompakt.Controller.Sync.{
  Listing, listed, list_error, Detection, cleared, missing_resource, sync_node, sync_nodes,
  pods_usage, apply_usage, Synced, first_detection, sync_inflight_node, sync_inflight,
  sync_detected, sync_ledger,
}

pub if-both : (P : Ledger → Type 0) (b : Bool) (x y : Ledger) → P x → P y → P (if b then x else y)
if-both P true x y p q = p
if-both P false x y p q = q

module _ (milli_value : Quantity → ℤ) where
  sync_node-IsWellFormed :
      (profile : PackingProfile) (node : Node) (l : Ledger)
      → IsWellFormed l
      → IsWellFormed (sync_node milli_value profile node l)
  unfolding sync_node
  sync_node-IsWellFormed profile node l w =
      let alloc = milli_values milli_value node.allocatable in
      let added = add_node node.name alloc node.labels node.taints l in
      let kept : IsWellFormed added = perform-IsWellFormed (adding _ _ _ _) l w in
      if-both IsWellFormed node.deleting _ _ w (
        if-both IsWellFormed (missing_resource profile.spec.demand_source alloc) _ _ w (
          if-both IsWellFormed (not (get_or "" "goatscaler.io/provision-task-id" node.labels == ""))
            _ _ (perform-IsWellFormed (removing_inflight _) added kept) kept))

  sync_nodes-IsWellFormed :
      (profile : PackingProfile) (nodes : List Node) (l : Ledger)
      → IsWellFormed l
      → IsWellFormed (sync_nodes milli_value profile nodes l)
  unfolding sync_nodes
  sync_nodes-IsWellFormed profile [] l w = w
  sync_nodes-IsWellFormed profile (node ∷ nodes) l w =
      sync_nodes-IsWellFormed profile nodes _ (sync_node-IsWellFormed profile node l w)

apply_usage-IsWellFormed :
    (usage : Dict (Dict ℤ)) (l : Ledger) → IsWellFormed l → IsWellFormed (apply_usage usage l)
unfolding apply_usage
apply_usage-IsWellFormed [] l w = w
apply_usage-IsWellFormed ((name, used) ∷ usage) l w =
    apply_usage-IsWellFormed usage _ (perform-IsWellFormed (updating name used) l w)

sync_inflight-IsWellFormed :
    (profile : PackingProfile) (pod : Pod) (ns : List InflightNode) (l : Ledger)
    → IsWellFormed l
    → IsWellFormed (sync_inflight profile pod ns l)
unfolding sync_inflight sync_inflight_node
sync_inflight-IsWellFormed profile pod [] l w = w
sync_inflight-IsWellFormed profile pod (n ∷ ns) l w =
    sync_inflight-IsWellFormed profile pod ns _ (perform-IsWellFormed (adding_inflight _ _ _ _) l w)

cleared-IsWellFormed :
    (profile : PackingProfile) (l : Ledger) → IsWellFormed l → IsWellFormed (cleared profile l)
cleared-IsWellFormed profile l w =
    perform-IsWellFormed (clearing_prefix _) _ (perform-IsWellFormed clearing l w)

sync_detected-IsWellFormed :
    (profile : PackingProfile) (pod : Pod) (ds : List Detection) (reservations : Dict (Dict ℤ))
    (l : Ledger)
    → IsWellFormed l
    → IsWellFormed (sync_detected profile pod ds reservations l).ledger
unfolding sync_detected
sync_detected-IsWellFormed profile pod ds reservations l w = go (first_detection ds)
  where
    go :
        (o : Option (String × List InflightNode))
        → IsWellFormed
            (elim o as (λ _. Synced) [
              | none ↦ record {
                ledger = restore_reservations reservations l;
                active_detectors = [];
                error = none;
              }
              | some (name, ns) ↦ record {
                ledger = restore_reservations reservations (sync_inflight profile pod ns l);
                active_detectors = if not (name == "") then name ∷ [] else [];
                error = none;
              }
            ]).ledger
    go none = restore_reservations-IsWellFormed reservations l w
    go (some (name, ns)) =
        restore_reservations-IsWellFormed reservations _
          (sync_inflight-IsWellFormed profile pod ns l w)

module _ (milli_value : Quantity → ℤ) where
  pub sync_ledger-IsWellFormed :
      (profile : PackingProfile) (pod : Pod) (nodes : Listing Node) (pods : Listing Pod)
      (ds : List Detection) (l : Ledger) (active : List String)
      → IsWellFormed l
      → IsWellFormed (sync_ledger milli_value profile pod nodes pods ds l active).ledger
  unfolding sync_ledger
  sync_ledger-IsWellFormed profile pod (list_error e) pods ds l active w =
      cleared-IsWellFormed profile l w
  sync_ledger-IsWellFormed profile pod (listed ns) (list_error e) ds l active w =
      sync_nodes-IsWellFormed milli_value profile ns _ (cleared-IsWellFormed profile l w)
  sync_ledger-IsWellFormed profile pod (listed ns) (listed ps) ds l active w =
      sync_detected-IsWellFormed profile pod ds _ _ (
        apply_usage-IsWellFormed (pods_usage milli_value ps []) _
          (sync_nodes-IsWellFormed milli_value profile ns _ (cleared-IsWellFormed profile l w)))
