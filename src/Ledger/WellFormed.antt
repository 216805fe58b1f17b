-- ===== src/Ledger/WellFormed.antt =====
-- internal/ledger/ledger.go: the names in both maps of the ledger, under each operation.
use mathlib.Core.Path.{subst}
use kompakt.Prelude.{
  String, ◌≡◌, sym, ◌⊎◌, Option, none, some, List, [], ◌∷◌, arith, Option-cases, inl, inr,
}
use kompakt.Int.{ℤ}
use kompakt.Text.{has_prefix}
use kompakt.Dict.{Dict, lookup, insert, UniqueKeys}
use kompakt.Dict.Laws.{insert-UniqueKeys, erase-UniqueKeys, erase_if-UniqueKeys}
use kompakt.Kube.{Taint}
use kompakt.Ledger.{
  NodeEntry, Ledger, fresh_entry, add_node, add_inflight_node, clear_nodes, clear_inflight,
  clear_inflight_by_prefix, remove_node, remove_inflight_node, modify_entry, update_usage,
  with_reserved, restore_reservations, find_entry, store_entry, reserve, release_reservation,
  drop_demand,
}
use kompakt.Ledger.Reserving.{reserve-cases}

pub record IsWellFormed (l : Ledger) : Type 0 where
  pub nodes : UniqueKeys l.nodes
  pub inflight : UniqueKeys l.inflight

modify_entry-UniqueKeys :
    (name : String) (f : NodeEntry → NodeEntry) (d : Dict NodeEntry)
    → UniqueKeys d
    → UniqueKeys (modify_entry name f d)
unfolding modify_entry
modify_entry-UniqueKeys name f d u = go (lookup name d)
  where
    go : (o : Option NodeEntry) → UniqueKeys (elim o [ none ↦ d | some n ↦ insert name (f n) d ])
    go none = u
    go (some n) = insert-UniqueKeys name (f n) d u

pub store_entry-IsWellFormed :
    (name : String) (n : NodeEntry) (l : Ledger)
    → IsWellFormed l
    → IsWellFormed (store_entry name n l)
unfolding store_entry
store_entry-IsWellFormed name n l w = go (lookup name l.nodes)
  where
    go :
        (o : Option NodeEntry)
        → IsWellFormed (elim o [
          | some _ ↦ record l { nodes = insert name n l.nodes }
          | none ↦ record l { inflight = insert name n l.inflight }
        ])
    go none = record { nodes = w.nodes; inflight = insert-UniqueKeys name n l.inflight w.inflight }
    go (some _) = record { nodes = insert-UniqueKeys name n l.nodes w.nodes; inflight = w.inflight }

module _ (name : String) (demand : Dict ℤ) (l : Ledger) (w : IsWellFormed l) where
  pub reserve-IsWellFormed : IsWellFormed (reserve name demand l).1
  reserve-IsWellFormed = elim (reserve-cases name demand l) [
    | inl refused ↦ subst (λ r. IsWellFormed r.1) (sym refused) w
    | inr (n, _, _, taken) ↦
        subst (λ r. IsWellFormed r.1) (sym taken) (store_entry-IsWellFormed name _ l w)
  ]

  release-cases :
      (release_reservation name demand l ≡ l)
      ⊎ ((n : NodeEntry) × (release_reservation name demand l ≡ store_entry name n l))
  unfolding release_reservation
  release-cases = elim (Option-cases (find_entry name l)) [
    | inl absent ↦ inl (ground arith)
    | inr (n, e) ↦ inr (record n { reserved = drop_demand n.reserved demand }, ground arith)
  ]

  release_reservation-IsWellFormed : IsWellFormed (release_reservation name demand l)
  release_reservation-IsWellFormed = elim release-cases [
    | inl same ↦ subst IsWellFormed (sym same) w
    | inr (n, freed) ↦ subst IsWellFormed (sym freed) (store_entry-IsWellFormed name n l w)
  ]

pub restore_reservations-IsWellFormed :
    (snap : Dict (Dict ℤ)) (l : Ledger)
    → IsWellFormed l
    → IsWellFormed (restore_reservations snap l)
unfolding restore_reservations
restore_reservations-IsWellFormed [] l w = w
restore_reservations-IsWellFormed ((name, r) ∷ snap) l w =
    restore_reservations-IsWellFormed snap _ (record {
      nodes = modify_entry-UniqueKeys name (with_reserved r) l.nodes w.nodes;
      inflight = modify_entry-UniqueKeys name (with_reserved r) l.inflight w.inflight;
    })

-- The calls that change a ledger, as other packages make them.
pub data Operation : Type 0 where
  adding adding_inflight : String → Dict ℤ → Dict String → List Taint → Operation
  clearing clearing_inflight : Operation
  clearing_prefix removing removing_inflight : String → Operation
  updating reserving releasing : String → Dict ℤ → Operation
  restoring : Dict (Dict ℤ) → Operation

abbrev pub perform : Operation → Ledger → Ledger
perform (adding name allocatable labels taints) = add_node name allocatable labels taints
perform (adding_inflight name allocatable labels taints) =
    add_inflight_node name allocatable labels taints
perform clearing = clear_nodes
perform clearing_inflight = clear_inflight
perform (clearing_prefix prefix) = clear_inflight_by_prefix prefix
perform (removing name) = remove_node name
perform (removing_inflight name) = remove_inflight_node name
perform (updating name used) = update_usage name used
perform (reserving name demand) = λ l. (reserve name demand l).1
perform (releasing name demand) = release_reservation name demand
perform (restoring snap) = restore_reservations snap

pub perform-IsWellFormed :
    (op : Operation) (l : Ledger) → IsWellFormed l → IsWellFormed (perform op l)
unfolding add_node add_inflight_node clear_nodes clear_inflight clear_inflight_by_prefix remove_node
    remove_inflight_node update_usage
perform-IsWellFormed (adding name a labels taints) l w = record {
  nodes = insert-UniqueKeys name (fresh_entry a labels taints) l.nodes w.nodes;
  inflight = w.inflight;
}
perform-IsWellFormed (adding_inflight name a labels taints) l w = record {
  nodes = w.nodes;
  inflight = insert-UniqueKeys name (fresh_entry a labels taints) l.inflight w.inflight;
}
perform-IsWellFormed clearing l w = record { nodes = tt; inflight = w.inflight }
perform-IsWellFormed clearing_inflight l w = record { nodes = w.nodes; inflight = tt }
perform-IsWellFormed (clearing_prefix p) l w = record {
  nodes = w.nodes;
  inflight = erase_if-UniqueKeys (λ j. has_prefix j p) l.inflight w.inflight;
}
perform-IsWellFormed (removing name) l w = record {
  nodes = erase-UniqueKeys name l.nodes w.nodes;
  inflight = w.inflight;
}
perform-IsWellFormed (removing_inflight name) l w = record {
  nodes = w.nodes;
  inflight = erase-UniqueKeys name l.inflight w.inflight;
}
perform-IsWellFormed (updating name used) l w = record {
  nodes = modify_entry-UniqueKeys name (λ n. record n { used = used }) l.nodes w.nodes;
  inflight = w.inflight;
}
perform-IsWellFormed (reserving name demand) l w = reserve-IsWellFormed name demand l w
perform-IsWellFormed (releasing name demand) l w = release_reservation-IsWellFormed name demand l w
perform-IsWellFormed (restoring snap) l w = restore_reservations-IsWellFormed snap l w
