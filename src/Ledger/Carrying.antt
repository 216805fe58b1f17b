-- ===== src/Ledger/Carrying.antt =====
-- internal/ledger/ledger.go: `SnapshotReservations` and `RestoreReservations`, which carry the
-- reservations over a rebuild of the ledger.
use kompakt.Prelude.{
  String, ◌==◌, eq_iff, ◌≡◌, refl, ◌∙◌, not, Option, none, some, [], ◌∷◌, is_empty, arith,
  Option-cases, inl, inr, if◌then◌else◌,
}
use kompakt.Int.{ℤ}
use kompakt.Dict.{Dict, lookup, insert, UniqueKeys}
use kompakt.Dict.Laws.{lookup-insert, missing-eq-lookup, insert-UniqueKeys}
use kompakt.Ledger.{
  NodeEntry, Ledger, modify_entry, with_reserved, snapshot_loop, snapshot_reservations,
  restore_reservations,
}

-- The reservations that a snapshot takes from an entry: none where the map is empty.
abbrev pub carried : Option NodeEntry → Option (Dict ℤ)
carried none = none
carried (some n) = if not (is_empty n.reserved) then some n.reserved else none

abbrev pub or_else : Option (Dict ℤ) → Option (Dict ℤ) → Option (Dict ℤ)
or_else none o = o
or_else (some r) o = some r

snapshot_step :
    (j k : String) (n : NodeEntry) (snap : Dict (Dict ℤ))
    → lookup j (if not (is_empty n.reserved) then insert k n.reserved snap else snap)
      ≡ (if k == j then or_else (carried (some n)) (lookup j snap) else lookup j snap)
snapshot_step j k n snap = ground (arith, lookup-insert k j n.reserved snap)

lookup-snapshot_loop :
    (j : String) (d : Dict NodeEntry) (snap : Dict (Dict ℤ))
    → UniqueKeys d
    → lookup j (snapshot_loop d snap) ≡ or_else (carried (lookup j d)) (lookup j snap)
unfolding snapshot_loop lookup
lookup-snapshot_loop j [] snap u = refl
lookup-snapshot_loop j ((k, n) ∷ d) snap u =
    lookup-snapshot_loop j d (if not (is_empty n.reserved) then insert k n.reserved snap else snap)
      u.1
    ∙ ground (arith, snapshot_step j k n snap, eq_iff k j, missing-eq-lookup k d u.0)

snapshot_loop-UniqueKeys :
    (d : Dict NodeEntry) (snap : Dict (Dict ℤ))
    → UniqueKeys snap
    → UniqueKeys (snapshot_loop d snap)
unfolding snapshot_loop
snapshot_loop-UniqueKeys [] snap u = u
snapshot_loop-UniqueKeys ((k, n) ∷ d) snap u =
    snapshot_loop-UniqueKeys d _ (ground (arith, insert-UniqueKeys k n.reserved snap u))

-- A snapshot holds what an entry has reserved, an in-flight entry's before an existing one's.
pub lookup-snapshot_reservations :
    (name : String) (l : Ledger)
    → UniqueKeys l.nodes
    → UniqueKeys l.inflight
    → lookup name (snapshot_reservations l)
      ≡ or_else (carried (lookup name l.inflight)) (carried (lookup name l.nodes))
unfolding snapshot_reservations lookup
lookup-snapshot_reservations name l un ui = ground (
  arith,
  lookup-snapshot_loop name l.inflight (snapshot_loop l.nodes []) ui,
  lookup-snapshot_loop name l.nodes [] un,
)

-- An entry with the reservations that a snapshot holds for it.
abbrev pub restored : Option (Dict ℤ) → Option NodeEntry → Option NodeEntry
restored r none = none
restored none (some n) = some n
restored (some r) (some n) = some (with_reserved r n)

lookup-modify_entry :
    (j k : String) (r : Dict ℤ) (d : Dict NodeEntry)
    → lookup j (modify_entry k (with_reserved r) d)
      ≡ (if k == j then restored (some r) (lookup j d) else lookup j d)
unfolding modify_entry
lookup-modify_entry j k r d = elim (Option-cases (lookup k d)) [
  | inl absent ↦ ground (arith, eq_iff k j)
  | inr (n, e) ↦ ground (arith, eq_iff k j, lookup-insert k j (with_reserved r n) d)
]

lookup-restore_reservations :
    (j : String) (snap : Dict (Dict ℤ)) (l : Ledger)
    → UniqueKeys snap
    → (lookup j (restore_reservations snap l).nodes ≡ restored (lookup j snap) (lookup j l.nodes))
      × (lookup j (restore_reservations snap l).inflight
          ≡ restored (lookup j snap) (lookup j l.inflight))
unfolding restore_reservations lookup
lookup-restore_reservations j [] l u = ground arith
lookup-restore_reservations j ((k, r) ∷ snap) l u =
    let l' : Ledger = record {
      nodes = modify_entry k (with_reserved r) l.nodes;
      inflight = modify_entry k (with_reserved r) l.inflight;
    } in
    ground (
      arith,
      lookup-restore_reservations j snap l' u.1,
      lookup-modify_entry j k r l.nodes,
      lookup-modify_entry j k r l.inflight,
      eq_iff k j,
      missing-eq-lookup k snap u.0,
    )

-- A ledger `l'` that was rebuilt from the cluster gets back the reservations of the ledger `l` before
-- it: each entry of `l'`, existing or in flight, has the reservations that its name had in `l`, if
-- there were any, and nothing else of it changes. No entry comes or goes.
pub restore-snapshot :
    (name : String) (l l' : Ledger)
    → UniqueKeys l.nodes
    → UniqueKeys l.inflight
    → let kept = or_else (carried (lookup name l.inflight)) (carried (lookup name l.nodes)) in
      let l'' = restore_reservations (snapshot_reservations l) l' in
      (lookup name l''.nodes ≡ restored kept (lookup name l'.nodes))
      × (lookup name l''.inflight ≡ restored kept (lookup name l'.inflight))
restore-snapshot name l l' un ui = rw (← lookup-snapshot_reservations name l un ui) (
    lookup-restore_reservations name (snapshot_reservations l) l' (
      unfold snapshot_reservations in
      snapshot_loop-UniqueKeys l.inflight _ (snapshot_loop-UniqueKeys l.nodes [] tt)))
