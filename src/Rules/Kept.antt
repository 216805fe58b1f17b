-- ===== src/Rules/Kept.antt =====
-- internal/rules: the two rules and the maps of the ledger.
use mathlib.Core.Path.{subst}
use kompakt.Prelude.{String, ◌≡◌, sym, some, Bool-cases, Option-cases, inl, inr, is_empty, arith}
use kompakt.Int.{ℤ}
use kompakt.Dict.{lookup}
use kompakt.Dict.Laws.{lookup-All}
use kompakt.Kube.{Quantity, Pod}
use kompakt.Api.{PackingProfile}
use kompakt.Ledger.{Ledger}
use kompakt.Ledger.Fit.{find_fit, find_fit_existing}
use kompakt.Ledger.WellFormed.{IsWellFormed, reserve-IsWellFormed}
use kompakt.Rules.{
  Rule, evaluate_workload_packing, evaluate_node_ready, registry, demand_of, extract_constraints,
}

module _ (milli_value : Quantity → ℤ) where
  -- A rule that keeps the ledger well formed.
  abbrev pub IsKeeping : Rule milli_value → Type 0
  IsKeeping rule =
      (pod : Pod) (profile : PackingProfile) (l : Ledger)
      → IsWellFormed l
      → IsWellFormed (rule pod l profile).1

  packing-keeps : IsKeeping (evaluate_workload_packing milli_value)
  unfolding evaluate_workload_packing
  packing-keeps pod profile l w = elim (Bool-cases (is_empty (demand_of milli_value pod profile))) [
    | inl none_asked ↦ subst (λ x. IsWellFormed x) (sym (ground arith)) w
    | inr asked ↦
        elim (Option-cases
          (find_fit_existing (demand_of milli_value pod profile) (extract_constraints pod) l)) [
            | inl e ↦ subst (λ x. IsWellFormed x) (sym (ground arith)) w
            | inr (name, e) ↦
                subst (λ x. IsWellFormed x) (sym (ground arith))
                  (reserve-IsWellFormed name (demand_of milli_value pod profile) l w)
          ]
  ]

  node_ready-keeps : IsKeeping (evaluate_node_ready milli_value)
  unfolding evaluate_node_ready
  node_ready-keeps pod profile l w =
      elim (Bool-cases (is_empty (demand_of milli_value pod profile))) [
        | inl none_asked ↦ subst (λ x. IsWellFormed x) (sym (ground arith)) w
        | inr asked ↦
            elim (Option-cases
              (find_fit (demand_of milli_value pod profile) (extract_constraints pod) l)) [
                | inl e ↦ subst (λ x. IsWellFormed x) (sym (ground arith)) w
                | inr ((name, inflight), e) ↦
                    subst (λ x. IsWellFormed x) (sym (ground arith))
                      (reserve-IsWellFormed name (demand_of milli_value pod profile) l w)
              ]
      ]

  pub registered-IsKeeping :
      (name : String) (rule : Rule milli_value)
      → lookup name (registry milli_value) ≡ some rule
      → IsKeeping rule
  registered-IsKeeping name rule e =
      lookup-All IsKeeping name rule (registry milli_value) (packing-keeps, (node_ready-keeps, tt))
        e
