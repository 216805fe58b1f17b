-- ===== src/Controller/Sync/Carried.antt =====
-- `syncLedger` and the reservations of the ledger before it.
use kompakt.Prelude.{String, ◌≡◌, Option, none, some, List, [], Option-cases, inl, inr, arith}
use kompakt.Int.{ℤ}
use kompakt.Dict.{Dict, lookup}
use kompakt.Kube.{Quantity, Pod, Node}
use kompakt.Api.{PackingProfile}
use kompakt.Ledger.{Ledger, snapshot_reservations, restore_reservations}
use kompakt.Ledger.WellFormed.{IsWellFormed}
use kompakt.Ledger.Carrying.{carried, or_else, restored, restore-snapshot}
use kompakt.Inflight.{InflightNode}
use kompakt.Controller.Sync.{
  listed, Detection, cleared, sync_nodes, pods_usage, apply_usage, first_detection, sync_inflight,
  sync_detected, sync_ledger,
}

-- The ledger as the cluster and the detectors give it, before reservations come back.
abbrev pub detected : PackingProfile → Pod → Option (String × List InflightNode) → Ledger → Ledger
detected profile pod none l = l
detected profile pod (some (name, ns)) l = sync_inflight profile pod ns l

abbrev pub rebuilt :
    (Quantity → ℤ) → PackingProfile → Pod → List Node → List Pod → List Detection → Ledger → Ledger
rebuilt milli_value profile pod nodes pods ds l = detected profile pod (first_detection ds) (
    apply_usage (pods_usage milli_value pods [])
      (sync_nodes milli_value profile nodes (cleared profile l)))

sync_detected-rebuilt :
    (profile : PackingProfile) (pod : Pod) (ds : List Detection) (snap : Dict (Dict ℤ)) (l : Ledger)
    → (sync_detected profile pod ds snap l).ledger
      ≡ restore_reservations snap (detected profile pod (first_detection ds) l)
unfolding sync_detected
sync_detected-rebuilt profile pod ds snap l = elim (Option-cases (first_detection ds)) [
  | inl e ↦ ground arith
  | inr ((name, ns), e) ↦ ground arith
]

-- After a `syncLedger` whose lists work, the ledger is what the cluster and the first detector with
-- nodes give, with the reservations of the ledger before: each of its entries, existing or in
-- flight, has those that its name had, if there were any.
pub sync_ledger-restored :
    (milli_value : Quantity → ℤ) (profile : PackingProfile) (pod : Pod) (nodes : List Node)
    (pods : List Pod) (ds : List Detection) (l : Ledger) (active : List String) (name : String)
    → IsWellFormed l
    → let kept = or_else (carried (lookup name l.inflight)) (carried (lookup name l.nodes)) in
      let l' =
        (sync_ledger milli_value profile pod (listed nodes) (listed pods) ds l active).ledger in
      let fresh = rebuilt milli_value profile pod nodes pods ds l in
      (lookup name l'.nodes ≡ restored kept (lookup name fresh.nodes))
      × (lookup name l'.inflight ≡ restored kept (lookup name fresh.inflight))
unfolding sync_ledger
sync_ledger-restored milli_value profile pod nodes pods ds l active name w =
    rw
      (sync_detected-rebuilt profile pod ds (snapshot_reservations l) (
        apply_usage (pods_usage milli_value pods [])
          (sync_nodes milli_value profile nodes (cleared profile l))))
      (restore-snapshot name l (rebuilt milli_value profile pod nodes pods ds l) w.nodes w.inflight)
