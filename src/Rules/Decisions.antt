-- ===== src/Rules/Decisions.antt =====
-- internal/rules: what the two rules decide, and what they do to the ledger.
use mathlib.Core.Path.{subst}
use kompakt.Prelude.{
  String, ◌≡◌, sym, ap, ◌∙◌, Bool, true, false, Option, none, some, is_empty, arith, Bool-cases,
  Option-cases, inl, inr, if◌then◌else◌,
}
use kompakt.Int.{ℤ}
use kompakt.Text.{◌+++◌}
use kompakt.Dict.{Dict, lookup, UniqueKeys}
use kompakt.Kube.{Quantity, Pod}
use kompakt.Api.{PackingProfile}
use kompakt.Ledger.{NodeEntry, Ledger, find_entry, ok, reserve, has_inflight_signal}
use kompakt.Ledger.Fit.{node_matches_constraints, find_fit, find_fit_existing}
use kompakt.Ledger.WellFormed.{IsWellFormed}
use kompakt.Ledger.Reserving.{NonNegative, IsReserved, reserve_takes}
use kompakt.Ledger.Sure.{Disjoint, reserve-find_fit, reserve-find_fit_existing, find_entry-node}
use kompakt.Rules.Demand.Sums.{extract_demand-UniqueKeys}
use kompakt.Rules.{
  Evaluation, decided, extract_constraints, demand_of, evaluate_workload_packing,
  evaluate_node_ready,
}

decided-eq : (a b : String) → decided true a ≡ decided true b → a ≡ b
decided-eq a b e = cc

-- What `WaitForWorkloadPacking` is documented to do, with no branch for a refused reservation.
abbrev pub packing_decision : Dict ℤ → Option String → Ledger → Evaluation × Ledger
packing_decision demand none l = (decided false "", l)
packing_decision demand (some name) l = (decided true name, (reserve name demand l).1)

-- The three states that `WaitForNodeReady` is documented to have.
abbrev pub node_ready_decision :
    Dict ℤ → Bool → Option (String × Bool) → Ledger → Evaluation × Ledger
node_ready_decision demand signal none l = (decided (if signal then false else true) "", l)
node_ready_decision demand signal (some (name, true)) l =
    (decided false "", (reserve name demand l).1)
node_ready_decision demand signal (some (name, false)) l =
    (decided true name, (reserve name demand l).1)

module _ (milli_value : Quantity → ℤ) (pod : Pod) (l : Ledger) (profile : PackingProfile) where
  abbrev demand : Dict ℤ
  demand = demand_of milli_value pod profile

  unique : UniqueKeys demand
  unique = extract_demand-UniqueKeys milli_value pod profile.spec.demand_source

  packing-none :
      is_empty demand ≡ false
      → find_fit_existing demand (extract_constraints pod) l ≡ none
      → evaluate_workload_packing milli_value pod l profile ≡ (decided false "", l)
  unfolding evaluate_workload_packing
  packing-none some_demand e = ground arith

  packing-some :
      (name : String)
      → is_empty demand ≡ false
      → find_fit_existing demand (extract_constraints pod) l ≡ some name
      → (reserve name demand l).0 ≡ ok
      → evaluate_workload_packing milli_value pod l profile
        ≡ (decided true name, (reserve name demand l).1)
  unfolding evaluate_workload_packing
  packing-some name some_demand e done = ground arith

  packing-empty :
      is_empty demand ≡ true
      → evaluate_workload_packing milli_value pod l profile ≡ (decided true "", l)
  unfolding evaluate_workload_packing
  packing-empty none_asked = ground arith

  -- On a ledger whose maps hold a name once, the packing rule never meets its branch for a refused
  -- reservation. A pod with no demand it releases to no node, with the ledger as it was, whatever
  -- the nodes are. A pod with a demand it releases to the node that the search over existing nodes
  -- returns, with the demand reserved there, and holds, with the ledger as it was, if the search
  -- returns none.
  pub evaluate_workload_packing-eq :
      IsWellFormed l
      → evaluate_workload_packing milli_value pod l profile ≡ (
          if is_empty demand
          then (decided true "", l)
          else packing_decision demand (find_fit_existing demand (extract_constraints pod) l) l)
  evaluate_workload_packing-eq w = elim (Bool-cases (is_empty demand)) [
    | inl none_asked ↦ rw none_asked (packing-empty none_asked)
    | inr some_demand ↦
        rw some_demand (elim (Option-cases (find_fit_existing demand (extract_constraints pod) l)) [
          | inl e ↦ rw e (packing-none some_demand e)
          | inr (name, e) ↦
              let (n, slack, found, el, done) =
                reserve-find_fit_existing demand (extract_constraints pod) l name w.nodes e in
              rw e (packing-some name some_demand e done)
        ])
  ]

  -- A pod that the packing rule releases with an answer that names a node, where the pod's demand is
  -- not empty and asks for no negative quantity and the ledger's maps hold a name once: the node
  -- exists, the pod may go to it, and it gets the pod's demand reserved, which leaves none of the
  -- demanded resources below zero.
  pub evaluate_workload_packing_safe :
      (name : String) (l' : Ledger)
      → IsWellFormed l
      → is_empty demand ≡ false
      → NonNegative demand
      → evaluate_workload_packing milli_value pod l profile ≡ (decided true name, l')
      → (n : NodeEntry) × (n' : NodeEntry) × (lookup name l.nodes ≡ some n)
        × (node_matches_constraints n (extract_constraints pod) ≡ true)
        × (find_entry name l' ≡ some n')
        × IsReserved n demand n'
  evaluate_workload_packing_safe name l' w some_demand nn h =
      elim (Option-cases (find_fit_existing demand (extract_constraints pod) l)) [
        | inl e ↦ absurd (ground (arith, packing-none some_demand e))
        | inr (found_name, e) ↦
            let (n, slack, found, el, done) =
              reserve-find_fit_existing demand (extract_constraints pod) l found_name w.nodes e in
            let answer : ◌≡◌ {A = Evaluation × Ledger} (decided true name, l')
                (decided true found_name, (reserve found_name demand l).1) =
              sym h ∙ packing-some found_name some_demand e done in
            let same : name ≡ found_name = decided-eq name found_name (ap (λ r. r.0) answer) in
            let after : l' ≡ (reserve found_name demand l).1 = ap (λ r. r.1) answer in
            let (m, n', known, kept, taken) = reserve_takes found_name demand l unique nn done in
            let one : m ≡ n = ground (arith, find_entry-node l found_name n found) in
            (
              n,
              n',
              rw same found,
              el.matches,
              rw (same, after) kept,
              subst (λ x. IsReserved x demand n') one taken,
            )
      ]

  node_ready-none :
      is_empty demand ≡ false
      → find_fit demand (extract_constraints pod) l ≡ none
      → evaluate_node_ready milli_value pod l profile
        ≡ node_ready_decision demand (has_inflight_signal (profile.name +++ "/") l) none l
  unfolding evaluate_node_ready
  node_ready-none some_demand e = ground arith

  pub node_ready-some :
      (name : String) (inflight : Bool)
      → is_empty demand ≡ false
      → find_fit demand (extract_constraints pod) l ≡ some (name, inflight)
      → (reserve name demand l).0 ≡ ok
      → evaluate_node_ready milli_value pod l profile
        ≡ node_ready_decision demand
            (has_inflight_signal (profile.name +++ "/") l)
            (some (name, inflight))
            l
  unfolding evaluate_node_ready
  node_ready-some name true some_demand e done = ground arith
  node_ready-some name false some_demand e done = ground arith

  node_ready-empty :
      is_empty demand ≡ true → evaluate_node_ready milli_value pod l profile ≡ (decided true "", l)
  unfolding evaluate_node_ready
  node_ready-empty none_asked = ground arith

  -- On a ledger whose maps hold a name once and share none, the scale-up rule does exactly this. A
  -- pod with no demand it releases to no node, with the ledger as it was, even where a node fits. For
  -- a pod with a demand it has its three documented states: with no fit it releases the pod to no
  -- node, or holds it while a node of unknown capacity is on its way, with the ledger as it was;
  -- with a fit in flight it reserves there and holds; with an existing fit it reserves there and
  -- releases. The branches for a refused reservation are dead.
  pub evaluate_node_ready-eq :
      IsWellFormed l
      → ((name : String) → Disjoint l name)
      → evaluate_node_ready milli_value pod l profile ≡ (
          if is_empty demand
          then (decided true "", l)
          else node_ready_decision demand
              (has_inflight_signal (profile.name +++ "/") l)
              (find_fit demand (extract_constraints pod) l)
              l)
  evaluate_node_ready-eq w apart = elim (Bool-cases (is_empty demand)) [
    | inl none_asked ↦ rw none_asked (node_ready-empty none_asked)
    | inr some_demand ↦
        rw some_demand (elim (Option-cases (find_fit demand (extract_constraints pod) l)) [
          | inl e ↦ rw e (node_ready-none some_demand e)
          | inr ((name, inflight), e) ↦ rw e (
              node_ready-some name inflight some_demand e (
                reserve-find_fit demand (extract_constraints pod) l name inflight w.nodes w.inflight
                  (apart name) e))
        ])
  ]
