-- ===== src/Rules.antt =====
-- internal/rules: the two rules that decide whether a pod's gate is released, and their registry.
-- `milli_value` is `(*resource.Quantity).MilliValue`, which is not part of the repository.
pub mod Demand
pub mod Decisions
pub mod Kept
pub mod Accounts
use kompakt.Prelude.{
  ℕ, String, ◌==◌, Bool, true, false, Option, none, some, List, [], ◌∷◌, is_empty, if◌then◌else◌,
}
use kompakt.Int.{ℤ}
use kompakt.Text.{◌+++◌}
use kompakt.Dict.{Dict}
use kompakt.Kube.{Quantity, Pod}
use kompakt.Api.{DemandSource, PackingProfile}
use kompakt.Ledger.{Ledger, Outcome, ok, no_fit, reserve, has_inflight_signal}
use kompakt.Ledger.Fit.{PodSchedulingConstraints, find_fit, find_fit_existing}
use kompakt.Rules.Demand.{extract_demand}

-- What `Evaluate` returns: release and node name, or an error.
pub data Evaluation : Type 0 where
  decided : Bool → String → Evaluation
  failed : Evaluation

-- `extractConstraints`
abbrev pub extract_constraints : Pod → Option PodSchedulingConstraints
extract_constraints pod =
    some (record { tolerations = pod.tolerations; node_selector = pod.node_selector })

module _ (milli_value : Quantity → ℤ) where
  abbrev pub demand_of : Pod → PackingProfile → Dict ℤ
  demand_of pod profile = extract_demand milli_value pod profile.spec.demand_source

  -- What a rule does once `Reserve` has answered.
  abbrev settle : Outcome → Evaluation → Evaluation → Evaluation
  settle ok e _ = e
  settle no_fit _ e = e

  -- `(*WaitForWorkloadPacking).Evaluate`
  unfoldable pub evaluate_workload_packing : Pod → Ledger → PackingProfile → Evaluation × Ledger
  evaluate_workload_packing pod l profile =
      let demand = demand_of pod profile in
      if is_empty demand
      then (decided true "", l)
      else elim (find_fit_existing demand (extract_constraints pod) l) [
        | none ↦ (decided false "", l)
        | some node_name ↦
            let (answer, l') = reserve node_name demand l in
            (settle answer (decided true node_name) (decided false ""), l')
      ]

  -- `(*WaitForNodeReady).Evaluate`
  unfoldable pub evaluate_node_ready : Pod → Ledger → PackingProfile → Evaluation × Ledger
  evaluate_node_ready pod l profile =
      let demand = demand_of pod profile in
      if is_empty demand
      then (decided true "", l)
      else elim (find_fit demand (extract_constraints pod) l) [
        | none ↦
            if has_inflight_signal (profile.name +++ "/") l
            then (decided false "", l)
            else (decided true "", l)
        | some (node_name, is_inflight) ↦
            let (answer, l') = reserve node_name demand l in
            if is_inflight
            then (settle answer (decided false "") (decided true ""), l')
            else (settle answer (decided true node_name) (decided false ""), l')
      ]

  -- The type of a rule's `Evaluate`.
  abbrev pub Rule : Type 0
  Rule = Pod → Ledger → PackingProfile → Evaluation × Ledger

  -- `Registry`, as the `init` functions fill it.
  abbrev pub registry : Dict Rule
  registry =
      ("WaitForWorkloadPacking", evaluate_workload_packing)
      ∷ ("WaitForNodeReady", evaluate_node_ready)
      ∷ []
