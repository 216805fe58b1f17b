-- ===== src/Tests/LedgerSamples.antt =====
-- Ledgers and demands for the runs.
use kompakt.Prelude.{ℕ, [], ◌∷◌, Option, some}
use kompakt.Int.{ℤ, pos}
use kompakt.Dict.{Dict}
use kompakt.Ledger.{NodeEntry, Ledger}
use kompakt.Ledger.Fit.{PodSchedulingConstraints}

abbrev pub node : ℕ → ℕ → ℕ → NodeEntry
node cpu memory reserved_cpu = record {
  allocatable = ("cpu", pos cpu) ∷ ("memory", pos memory) ∷ [];
  used = ("cpu", pos 100) ∷ [];
  reserved = ("cpu", pos reserved_cpu) ∷ [];
  labels = ("pool", "gpu") ∷ [];
  taints = (record { key = "pool"; value = "gpu"; effect = "NoSchedule" }) ∷ [];
}

abbrev pub big : NodeEntry
big = node 4000 8000 50

abbrev pub small : NodeEntry
small = node 1000 2000 10

abbrev pub arriving : NodeEntry
arriving = node 700 1000 0

abbrev pub cluster : Ledger
cluster = record {
  nodes = ("big", big) ∷ ("small", small) ∷ [];
  inflight = ("gpu/arriving", arriving) ∷ [];
}

abbrev pub demand : Dict ℤ
demand = ("cpu", pos 500) ∷ ("memory", pos 1000) ∷ []

abbrev pub constraints : Option PodSchedulingConstraints
constraints = some (record {
  tolerations = (record { key = "pool"; operator = "Equal"; value = "gpu"; effect = "" }) ∷ [];
  node_selector = ("pool", "gpu") ∷ [];
})
