-- ===== src/Ledger.antt =====
-- internal/ledger/ledger.go: the node ledger, its state and the operations that change it. The
-- choice of a node (`FindFit`) is in Ledger/Fit.antt. The mutex is left out: every method holds it
-- for its whole body, so a method is one step.
pub mod Fit
pub mod WellFormed
pub mod Reserving
pub mod Releasing
pub mod BestFit
pub mod Choice
pub mod Sure
pub mod Isolation
pub mod Carrying
pub mod Slack
pub mod Order
use kompakt.Prelude.{
  ℕ, String, ◌==◌, ◌||◌, ◌&&◌, Bool, true, false, Option, none, some, List, [], ◌∷◌, not, length,
  any, is_empty, if◌then◌else◌,
}
use kompakt.Int.{ℤ, pos, add64, sub64, ltb_ℤ}
use kompakt.Text.{has_prefix}
use kompakt.Dict.{Dict, lookup, get_or, insert, erase, erase_if}
use kompakt.Kube.{Taint}

-- `nodeEntry`
pub record NodeEntry : Type 0 where
  pub allocatable : Dict ℤ
  pub used : Dict ℤ
  pub reserved : Dict ℤ
  pub labels : Dict String
  pub taints : List Taint

-- `(*nodeEntry).available`
unfoldable pub available : NodeEntry → String → ℤ
unfolding get_or
available n resource =
    sub64 (sub64 (get_or (pos 0) resource n.allocatable) (get_or (pos 0) resource n.used))
      (get_or (pos 0) resource n.reserved)

-- `NodeLedger`
pub record Ledger : Type 0 where
  pub nodes : Dict NodeEntry
  pub inflight : Dict NodeEntry

-- `New`
abbrev pub empty : Ledger
empty = record { nodes = []; inflight = [] }

-- The entry that `AddNode` and `AddInflightNode` make. The copies of the maps are the maps.
abbrev pub fresh_entry : Dict ℤ → Dict String → List Taint → NodeEntry
fresh_entry allocatable labels taints = record {
  allocatable = allocatable;
  used = [];
  reserved = [];
  labels = labels;
  taints = taints;
}

-- `AddNode`
unfoldable pub add_node : String → Dict ℤ → Dict String → List Taint → Ledger → Ledger
unfolding insert
add_node name allocatable labels taints l = record l {
  nodes = insert name (fresh_entry allocatable labels taints) l.nodes;
}

-- `AddInflightNode`
unfoldable pub add_inflight_node : String → Dict ℤ → Dict String → List Taint → Ledger → Ledger
unfolding insert
add_inflight_node name allocatable labels taints l = record l {
  inflight = insert name (fresh_entry allocatable labels taints) l.inflight;
}

-- `ClearNodes`
unfoldable pub clear_nodes : Ledger → Ledger
clear_nodes l = record l { nodes = [] }

-- `ClearInflight`
unfoldable pub clear_inflight : Ledger → Ledger
clear_inflight l = record l { inflight = [] }

-- `ClearInflightByPrefix`
unfoldable pub clear_inflight_by_prefix : String → Ledger → Ledger
unfolding erase_if has_prefix
clear_inflight_by_prefix prefix l = record l {
  inflight = erase_if (λ name. has_prefix name prefix) l.inflight;
}

-- `RemoveNode`
unfoldable pub remove_node : String → Ledger → Ledger
unfolding erase
remove_node name l = record l { nodes = erase name l.nodes }

-- `RemoveInflightNode`
unfoldable pub remove_inflight_node : String → Ledger → Ledger
unfolding erase
remove_inflight_node name l = record l { inflight = erase name l.inflight }

-- A write through the pointer that a map holds under a name; nothing where it holds none.
unfoldable pub modify_entry : String → (NodeEntry → NodeEntry) → Dict NodeEntry → Dict NodeEntry
unfolding lookup insert
modify_entry name f d = elim (lookup name d) [ none ↦ d | some n ↦ insert name (f n) d ]

-- `UpdateUsage`
unfoldable pub update_usage : String → Dict ℤ → Ledger → Ledger
unfolding modify_entry
update_usage name used l = record l {
  nodes = modify_entry name (λ n. record n { used = used }) l.nodes;
}

-- One `range` loop of `SnapshotReservations`.
unfoldable pub snapshot_loop : Dict NodeEntry → Dict (Dict ℤ) → Dict (Dict ℤ)
unfolding insert
snapshot_loop [] snap = snap
snapshot_loop ((name, n) ∷ d) snap =
    snapshot_loop d (if not (is_empty n.reserved) then insert name n.reserved snap else snap)

-- `SnapshotReservations`
unfoldable pub snapshot_reservations : Ledger → Dict (Dict ℤ)
unfolding snapshot_loop
snapshot_reservations l = snapshot_loop l.inflight (snapshot_loop l.nodes [])

abbrev pub with_reserved : Dict ℤ → NodeEntry → NodeEntry
with_reserved reserved n = record n { reserved = reserved }

-- The loop of `RestoreReservations`.
unfoldable pub restore_reservations : Dict (Dict ℤ) → Ledger → Ledger
unfolding modify_entry
restore_reservations [] l = l
restore_reservations ((name, reserved) ∷ snap) l = restore_reservations snap (record {
  nodes = modify_entry name (with_reserved reserved) l.nodes;
  inflight = modify_entry name (with_reserved reserved) l.inflight;
})

-- `findEntry`
unfoldable pub find_entry : String → Ledger → Option NodeEntry
unfolding lookup
find_entry name l = elim (lookup name l.nodes) [ some n ↦ some n | none ↦ lookup name l.inflight ]

-- A write through the pointer that `findEntry` returned.
unfoldable pub store_entry : String → NodeEntry → Ledger → Ledger
unfolding lookup insert
store_entry name n l = elim (lookup name l.nodes) [
  | some _ ↦ record l { nodes = insert name n l.nodes }
  | none ↦ record l { inflight = insert name n l.inflight }
]

-- `nil` or `errNoFit`.
pub data Outcome : Type 0 where
  ok : Outcome
  no_fit : Outcome

-- The first loop of `Reserve`: whether every demanded quantity is available.
unfoldable pub has_room : NodeEntry → Dict ℤ → Bool
unfolding available
has_room n [] = true
has_room n ((res, qty) ∷ demand) =
    let rest = has_room n demand in if ltb_ℤ (available n res) qty then false else rest

-- The second loop of `Reserve`.
unfoldable pub add_demand : Dict ℤ → Dict ℤ → Dict ℤ
unfolding get_or insert
add_demand reserved [] = reserved
add_demand reserved ((res, qty) ∷ demand) =
    add_demand (insert res (add64 (get_or (pos 0) res reserved) qty) reserved) demand

-- `Reserve`, on the entry that was found.
unfoldable pub reserve_at : String → Dict ℤ → NodeEntry → Ledger → Outcome × Ledger
unfolding has_room add_demand store_entry
reserve_at name demand n l =
    if has_room n demand
    then (ok, store_entry name (record n { reserved = add_demand n.reserved demand }) l)
    else (no_fit, l)

-- `Reserve`
unfoldable pub reserve : String → Dict ℤ → Ledger → Outcome × Ledger
unfolding reserve_at find_entry
reserve name demand l = elim (find_entry name l) [
  | none ↦ (no_fit, l)
  | some n ↦ reserve_at name demand n l
]

-- The loop of `ReleaseReservation`; a difference below zero is set to zero.
unfoldable pub drop_demand : Dict ℤ → Dict ℤ → Dict ℤ
unfolding get_or insert
drop_demand reserved [] = reserved
drop_demand reserved ((res, qty) ∷ demand) =
    let left = sub64 (get_or (pos 0) res reserved) qty in
    drop_demand (insert res (if ltb_ℤ left (pos 0) then pos 0 else left) reserved) demand

-- `ReleaseReservation`
unfoldable pub release_reservation : String → Dict ℤ → Ledger → Ledger
unfolding find_entry drop_demand store_entry
release_reservation name demand l = elim (find_entry name l) [
  | none ↦ l
  | some n ↦ store_entry name (record n { reserved = drop_demand n.reserved demand }) l
]

-- `LedgerSnapshot`
pub record LedgerSnapshot : Type 0 where
  pub node_count : ℕ
  pub inflight_count : ℕ
  pub total_allocatable : Dict ℤ

-- The nested loops of `Snapshot`. Adding a node's resources to the totals is the inner loop, which
-- is the second loop of `Reserve` over other maps.
unfoldable pub total_loop : Dict NodeEntry → Dict ℤ → Dict ℤ
unfolding add_demand
total_loop [] total = total
total_loop ((_, n) ∷ d) total = total_loop d (add_demand total n.allocatable)

-- `Snapshot`
unfoldable pub snapshot : Ledger → LedgerSnapshot
unfolding total_loop
snapshot l = record {
  node_count = length l.nodes;
  inflight_count = length l.inflight;
  total_allocatable = total_loop l.nodes [];
}

-- `HasInflightSignal`
unfoldable pub has_inflight_signal : String → Ledger → Bool
unfolding has_prefix
has_inflight_signal prefix l =
    any (λ e. has_prefix e.0 prefix && is_empty e.1.allocatable) l.inflight
