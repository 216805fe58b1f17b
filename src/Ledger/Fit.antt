-- ===== src/Ledger/Fit.antt =====
-- internal/ledger/ledger.go: the search for the node with the least sufficient room.
use kompakt.Prelude.{
  String, ◌==◌, ◌||◌, ◌&&◌, Bool, true, false, Option, none, some, List, [], ◌∷◌, not, all,
  if◌then◌else◌,
}
use kompakt.Int.{ℤ, pos, max_int64, add64, sub64, ltb_ℤ, eqb_ℤ}
use kompakt.Dict.{Dict, get_or}
use kompakt.Kube.{Taint, Toleration}
use kompakt.Scheduling.{tolerate_taint}
use kompakt.Ledger.{NodeEntry, available, Ledger}

-- `PodSchedulingConstraints`
pub record PodSchedulingConstraints : Type 0 where
  pub tolerations : List Toleration
  pub node_selector : Dict String

-- A taint of another effect is passed over.
unfoldable pub taint_ok : List Toleration → Taint → Bool
unfolding tolerate_taint
taint_ok tolerations taint =
    if not (taint.effect == "NoSchedule") && not (taint.effect == "NoExecute")
    then true
    else tolerate_taint tolerations taint

-- The loop over a node selector; a missing label reads as the empty text.
unfoldable pub selector_ok : Dict String → Dict String → Bool
unfolding get_or
selector_ok labels selector = all (λ e. get_or "" e.0 labels == e.1) selector

-- `nodeMatchesConstraints`
unfoldable pub node_matches_constraints : NodeEntry → Option PodSchedulingConstraints → Bool
unfolding taint_ok selector_ok
node_matches_constraints n none = true
node_matches_constraints n (some c) =
    all (taint_ok c.tolerations) n.taints && selector_ok n.labels c.node_selector

-- The loop over the demand: the total slack, or `none` where a resource does not fit.
unfoldable pub slack_loop : NodeEntry → Dict ℤ → ℤ → Option ℤ
unfolding available
slack_loop n [] total = some total
slack_loop n ((res, qty) ∷ demand) total =
    let avail = available n res in
    let rest = slack_loop n demand (add64 total (sub64 avail qty)) in
    if ltb_ℤ avail qty then none else rest

-- `bestName`, `bestSlack` and `bestInflight`.
pub record Best : Type 0 where
  pub name : String
  pub slack : ℤ
  pub inflight : Bool

abbrev pub no_best : Best
no_best = record { name = ""; slack = max_int64; inflight = false }

-- What a node that fits with this slack does to the best so far.
unfoldable pub improve : String → Bool → ℤ → Best → Best
improve name inflight slack best =
    if ltb_ℤ slack best.slack || (eqb_ℤ slack best.slack && not inflight && best.inflight)
    then record { name = name; slack = slack; inflight = inflight }
    else best

-- The closure `check` of `FindFit`.
unfoldable pub check :
    Dict ℤ → Option PodSchedulingConstraints → Bool → String × NodeEntry → Best → Best
unfolding node_matches_constraints slack_loop improve
check demand constraints inflight (name, n) best =
    if node_matches_constraints n constraints
    then elim (slack_loop n demand (pos 0)) [
      | none ↦ best
      | some slack ↦ improve name inflight slack best
    ]
    else best

-- One `range` loop of `FindFit`.
unfoldable pub check_all :
    Dict ℤ → Option PodSchedulingConstraints → Bool → Dict NodeEntry → Best → Best
unfolding check
check_all demand constraints inflight [] best = best
check_all demand constraints inflight (e ∷ d) best =
    check_all demand constraints inflight d (check demand constraints inflight e best)

-- `FindFit`; `none` is errNoFit.
unfoldable pub find_fit : Dict ℤ → Option PodSchedulingConstraints → Ledger → Option (String × Bool)
unfolding check_all
find_fit demand constraints l =
    let best =
      check_all demand constraints true l.inflight
        (check_all demand constraints false l.nodes no_best) in
    if best.name == "" then none else some (best.name, best.inflight)

-- The loop body of `FindFitExisting`.
unfoldable pub check_existing :
    Dict ℤ → Option PodSchedulingConstraints → String × NodeEntry → String × ℤ → String × ℤ
unfolding node_matches_constraints slack_loop
check_existing demand constraints (name, n) (best_name, best_slack) =
    if node_matches_constraints n constraints
    then elim (slack_loop n demand (pos 0)) [
      | none ↦ (best_name, best_slack)
      | some slack ↦ if ltb_ℤ slack best_slack then (name, slack) else (best_name, best_slack)
    ]
    else (best_name, best_slack)

unfoldable pub check_all_existing :
    Dict ℤ → Option PodSchedulingConstraints → Dict NodeEntry → String × ℤ → String × ℤ
unfolding check_existing
check_all_existing demand constraints [] best = best
check_all_existing demand constraints (e ∷ d) best =
    check_all_existing demand constraints d (check_existing demand constraints e best)

-- `FindFitExisting`; `none` is errNoFit.
unfoldable pub find_fit_existing : Dict ℤ → Option PodSchedulingConstraints → Ledger → Option String
unfolding check_all_existing
find_fit_existing demand constraints l =
    let best = check_all_existing demand constraints l.nodes ("", max_int64) in
    if best.0 == "" then none else some best.0
