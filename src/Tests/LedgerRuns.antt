-- ===== src/Tests/LedgerRuns.antt =====
-- The ledger at concrete inputs.
use kompakt.Prelude.{
  String, ◌≡◌, refl, inl, ◌≢◌, eq_iff, ◌==◌, Bool, true, [], ◌∷◌, some, none, arith, if◌then◌else◌,
}
use kompakt.Int.{ℤ, pos, ◌≤ℤ◌, ◌+ℤ◌, add64, sub64, max_int64, IsInt64, int_laws}
use kompakt.Dict.{Dict, lookup, get_or, missing, UniqueKeys}
use kompakt.Ledger.{
  NodeEntry, Ledger, find_entry, ok, no_fit, reserve, release_reservation, has_inflight_signal,
  clear_inflight_by_prefix, add_node, empty, snapshot_reservations, restore_reservations,
}
use kompakt.Text.{slash_free}
use kompakt.Ledger.Fit.{find_fit, find_fit_existing, node_matches_constraints, slack_loop}
use kompakt.Ledger.BestFit.{IsEligible}
use kompakt.Ledger.Releasing.{HasHeadroom, release-reserve}
use kompakt.Ledger.Choice.{Chosen, find_fit_least, find_fit_complete}
use kompakt.Ledger.Sure.{Disjoint}
use kompakt.Ledger.Isolation.{key_prefix, profile_isolation}
use kompakt.Ledger.Carrying.{carried, or_else, restored, restore-snapshot}
use kompakt.Ledger.Reserving.{IsReserved, reserve_takes}
use kompakt.Tests.LedgerSamples.{small, arriving, cluster, demand, constraints}

abbrev reserved_small : Ledger
reserved_small = (reserve "small" demand cluster).1

unique : UniqueKeys demand
unfolding missing
unique = (refl, (refl, tt))

run_ok : (reserve "small" demand cluster).0 ≡ ok
unfolding reserve sub64 lookup
run_ok = refl

run_find : find_fit demand constraints cluster ≡ some ("gpu/arriving", true)
unfolding find_fit add64 sub64 lookup
run_find = refl

reserve_takes_example :
    (n : NodeEntry) × (n' : NodeEntry) × (find_entry "small" cluster ≡ some n)
    × (find_entry "small" reserved_small ≡ some n')
    × IsReserved n demand n'
reserve_takes_example = reserve_takes "small" demand cluster unique (omega arith) run_ok

abbrev too_much : Dict ℤ
too_much = ("cpu", pos 5000) ∷ []

unique_too_much : UniqueKeys too_much
unfolding missing
unique_too_much = (refl, tt)

run_refused : (reserve "small" too_much cluster).0 ≡ no_fit
unfolding reserve sub64 lookup
run_refused = refl

found_small : find_entry "small" cluster ≡ some small
unfolding find_entry
found_small = refl

get_or_small :
    (res : String) → get_or (pos 0) res small.reserved ≡ (if "cpu" == res then pos 10 else pos 0)
unfolding get_or lookup
get_or_small res = ground arith

demand_at : (res : String) (q : ℤ) → lookup res demand ≡ some q → (pos 0 ≤ℤ q) × (q ≤ℤ pos 1000)
unfolding lookup
demand_at res q e = ground arith

small-IsInt64 : (a : ℤ) → pos 0 ≤ℤ a → a ≤ℤ pos 10 → IsInt64 a
small-IsInt64 a na fa = ground arith

sum_fits : (a q : ℤ) → pos 0 ≤ℤ a → a ≤ℤ pos 10 → pos 0 ≤ℤ q → q ≤ℤ pos 1000 → a +ℤ q ≤ℤ max_int64
sum_fits a q na fa nq fq = omega int_laws

headroom_at :
    (res : String)
    → (pos 0 ≤ℤ get_or (pos 0) res small.reserved) × (get_or (pos 0) res small.reserved ≤ℤ pos 10)
headroom_at res = rw get_or_small (ground arith)

headroom : HasHeadroom small demand
headroom = record {
  is_int64 = λ res.
      small-IsInt64 (get_or (pos 0) res small.reserved) (headroom_at res).0 (headroom_at res).1;
  nonnegative = λ res. (headroom_at res).0;
  fits = λ res q e.
      sum_fits (get_or (pos 0) res small.reserved) q (headroom_at res).0 (headroom_at res).1
        (demand_at res q e).0 (demand_at res q e).1;
}

release-reserve_example :
    (n : NodeEntry) × (find_entry "small" (release_reservation "small" demand reserved_small)
      ≡ some n)
    × ((res : String) → get_or (pos 0) res n.reserved ≡ get_or (pos 0) res small.reserved)
release-reserve_example =
    release-reserve "small" demand cluster small unique (omega arith) found_small headroom run_ok

unique_nodes : UniqueKeys cluster.nodes
unfolding missing
unique_nodes = (refl, (refl, tt))

unique_inflight : UniqueKeys cluster.inflight
unfolding missing
unique_inflight = (refl, tt)

chosen : Chosen demand constraints cluster "gpu/arriving" true arriving (pos 100)
unfolding lookup node_matches_constraints slack_loop add64 sub64
chosen = (refl, record { matches = refl; fits = refl })

small-IsEligible : IsEligible demand constraints small (pos 1390)
unfolding node_matches_constraints slack_loop add64 sub64 lookup
small-IsEligible = record { matches = refl; fits = refl }

small_found : lookup "small" cluster.nodes ≡ some small
unfolding lookup
small_found = refl

find_fit_least_example : pos 100 ≤ℤ pos 1390
find_fit_least_example =
    find_fit_least demand constraints cluster "gpu/arriving" true arriving (pos 100) unique_nodes
      unique_inflight run_find chosen "small" small (pos 1390) (inl small_found) small-IsEligible

no_empty_node : lookup "" cluster.nodes ≡ none
unfolding lookup
no_empty_node = refl

no_empty_inflight : lookup "" cluster.inflight ≡ none
unfolding lookup
no_empty_inflight = refl

find_fit_complete_example :
    (name : String) × (inflight : Bool) × (find_fit demand constraints cluster
      ≡ some (name, inflight))
find_fit_complete_example =
    find_fit_complete demand constraints cluster "small" small (pos 1390) unique_nodes
      unique_inflight no_empty_node no_empty_inflight (inl small_found) small-IsEligible
      (omega arith)

apart : Disjoint cluster "gpu/arriving"
unfolding lookup
apart = inl refl

run_find_existing : find_fit_existing demand constraints cluster ≡ some "small"
unfolding find_fit_existing add64 sub64 lookup
run_find_existing = refl

profiles_differ : ◌≢◌ {A = String} "gp" "gpu"
profiles_differ e = ground (arith, eq_iff "gp" "gpu")

profile_isolation_example :
    let l' = clear_inflight_by_prefix (key_prefix "gp") cluster in
    (has_inflight_signal (key_prefix "gpu") l' ≡ has_inflight_signal (key_prefix "gpu") cluster)
    × (lookup "gpu/arriving" l'.inflight ≡ lookup "gpu/arriving" cluster.inflight)
unfolding slash_free
profile_isolation_example =
    profile_isolation "gp" "gpu" "arriving" cluster profiles_differ refl refl

restore-snapshot_example :
    let kept =
      or_else (carried (lookup "big" cluster.inflight)) (carried (lookup "big" cluster.nodes)) in
    let l' = add_node "big" [] [] [] empty in
    let l'' = restore_reservations (snapshot_reservations cluster) l' in
    (lookup "big" l''.nodes ≡ restored kept (lookup "big" l'.nodes))
    × (lookup "big" l''.inflight ≡ restored kept (lookup "big" l'.inflight))
restore-snapshot_example =
    restore-snapshot "big" cluster (add_node "big" [] [] [] empty) unique_nodes unique_inflight
