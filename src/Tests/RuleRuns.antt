-- ===== src/Tests/RuleRuns.antt =====
-- The rules at concrete inputs.
use kompakt.Prelude.{◌≡◌, refl, ap, inl, true, false, some, [], ◌∷◌, is_empty, arith, if◌then◌else◌}
use kompakt.Int.{ℤ, pos, add64, sub64, wrap64}
use kompakt.Text.{◌+++◌}
use kompakt.Dict.{Dict, lookup, get_or, insert, missing}
use kompakt.Ledger.{NodeEntry, Ledger, find_entry, reserve, has_inflight_signal}
use kompakt.Ledger.Fit.{find_fit, find_fit_existing, node_matches_constraints}
use kompakt.Ledger.WellFormed.{IsWellFormed}
use kompakt.Ledger.Reserving.{NonNegative, IsReserved}
use kompakt.Rules.{
  decided, extract_constraints, demand_of, evaluate_workload_packing, evaluate_node_ready,
}
use kompakt.Rules.Demand.{extract_from_requests, extract_demand}
use kompakt.Rules.Demand.Sums.{count, total_requested, extract_from_requests-sum}
use kompakt.Rules.Decisions.{
  packing_decision, node_ready_decision, evaluate_workload_packing-eq,
  evaluate_workload_packing_safe, evaluate_node_ready-eq,
}
use kompakt.Tests.RuleSamples.{milli, sample_pod, sample_profile, settled, waiting}

abbrev asked : Dict ℤ
asked = demand_of milli sample_pod sample_profile

extract_from_requests-sum_example :
    get_or (pos 0) "cpu" (extract_from_requests milli sample_pod ("cpu" ∷ "memory" ∷ "cpu" ∷ []))
    ≡ wrap64 (
        total_requested milli sample_pod.containers
          (count "cpu" ("cpu" ∷ "memory" ∷ "cpu" ∷ []))
          "cpu")
extract_from_requests-sum_example =
    extract_from_requests-sum milli sample_pod ("cpu" ∷ "memory" ∷ "cpu" ∷ []) "cpu"

settled-IsWellFormed : IsWellFormed settled
unfolding missing
settled-IsWellFormed = record { nodes = (refl, tt); inflight = tt }

waiting-IsWellFormed : IsWellFormed waiting
unfolding missing
waiting-IsWellFormed = record { nodes = tt; inflight = (refl, tt) }

some_asked : is_empty asked ≡ false
unfolding extract_demand lookup get_or insert add64
some_asked = refl

asked-NonNegative : NonNegative asked
unfolding extract_demand lookup get_or insert add64
asked-NonNegative = (omega arith, (omega arith, tt))

evaluate_workload_packing-eq_example :
    evaluate_workload_packing milli sample_pod settled sample_profile ≡ (
      if is_empty asked
      then (decided true "", settled)
      else packing_decision asked
          (find_fit_existing asked (extract_constraints sample_pod) settled)
          settled)
evaluate_workload_packing-eq_example =
    evaluate_workload_packing-eq milli sample_pod settled sample_profile settled-IsWellFormed

run_packing :
    (evaluate_workload_packing milli sample_pod settled sample_profile).0 ≡ decided true "big"
unfolding evaluate_workload_packing extract_demand find_fit_existing reserve add64 sub64 lookup
    get_or
run_packing = refl

abbrev packed : Ledger
packed = (evaluate_workload_packing milli sample_pod settled sample_profile).1

whole_packing :
    evaluate_workload_packing milli sample_pod settled sample_profile ≡ (decided true "big", packed)
whole_packing = ap (λ e. (e, packed)) run_packing

evaluate_workload_packing_safe_example :
    (n : NodeEntry) × (n' : NodeEntry) × (lookup "big" settled.nodes ≡ some n)
    × (node_matches_constraints n (extract_constraints sample_pod) ≡ true)
    × (find_entry "big" packed ≡ some n')
    × IsReserved n asked n'
evaluate_workload_packing_safe_example =
    evaluate_workload_packing_safe milli sample_pod settled sample_profile "big" packed
      settled-IsWellFormed some_asked asked-NonNegative whole_packing

evaluate_node_ready-eq_example : evaluate_node_ready milli sample_pod waiting sample_profile ≡ (
    if is_empty asked
    then (decided true "", waiting)
    else node_ready_decision asked
        (has_inflight_signal (sample_profile.name +++ "/") waiting)
        (find_fit asked (extract_constraints sample_pod) waiting)
        waiting)
unfolding lookup
evaluate_node_ready-eq_example =
    evaluate_node_ready-eq milli sample_pod waiting sample_profile waiting-IsWellFormed
      (λ name. inl refl)
