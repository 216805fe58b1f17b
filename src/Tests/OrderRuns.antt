-- ===== src/Tests/OrderRuns.antt =====
-- The search in two orders of the same maps.
use mathlib.Core.List.Permᴰ
use kompakt.Prelude.{◌==◌, ◌≡◌, refl, none, [], ◌∷◌}
use kompakt.Prelude.{eq_iff, Bool-cases, inl, inr, sym}
use kompakt.Int.{ℤ, pos}
use kompakt.Dict.{Dict, lookup, missing}
use kompakt.Ledger.{Ledger}
use kompakt.Ledger.Fit.{find_fit}
use kompakt.Ledger.WellFormed.{IsWellFormed}
use kompakt.Ledger.Order.{SameMap, SameChoice, find_fit-SameChoice}
use kompakt.Tests.LedgerSamples.{big, small, cluster, demand, constraints}

abbrev demand_swapped : Dict ℤ
demand_swapped = ("memory", pos 1000) ∷ ("cpu", pos 500) ∷ []

abbrev cluster_swapped : Ledger
cluster_swapped = record cluster { nodes = ("small", small) ∷ ("big", big) ∷ [] }

cluster-IsWellFormed : IsWellFormed cluster
unfolding missing
cluster-IsWellFormed = record { nodes = (refl, (refl, tt)); inflight = (refl, tt) }

cluster_swapped-IsWellFormed : IsWellFormed cluster_swapped
unfolding missing
cluster_swapped-IsWellFormed = record { nodes = (refl, (refl, tt)); inflight = (refl, tt) }

nodes_same : SameMap cluster.nodes cluster_swapped.nodes
unfolding lookup
nodes_same k = elim (Bool-cases ("big" == k)) [
  | inl e ↦ let same = (eq_iff "big" k).0 e in rw (sym same) refl
  | inr e ↦ rw e refl
]

no_empty_node : lookup "" cluster.nodes ≡ none
unfolding lookup
no_empty_node = refl

no_empty_inflight : lookup "" cluster.inflight ≡ none
unfolding lookup
no_empty_inflight = refl

find_fit-SameChoice_example :
    SameChoice demand constraints cluster
      (find_fit demand constraints cluster)
      cluster_swapped
      (find_fit demand_swapped constraints cluster_swapped)
find_fit-SameChoice_example =
    find_fit-SameChoice constraints demand demand_swapped cluster cluster_swapped
      cluster-IsWellFormed cluster_swapped-IsWellFormed (Permᴰ.swap refl refl) nodes_same
      (λ k. refl) no_empty_node no_empty_inflight
