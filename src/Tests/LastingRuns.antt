-- ===== src/Tests/LastingRuns.antt =====
-- What calls of the controller reserve, at concrete inputs.
use kompakt.Prelude.{ℕ, ◌≤◌, length, String, ◌≡◌, refl, true, some, none, [], ◌∷◌}
use kompakt.Int.{pos, ◌-ℤ◌, add64, sub64}
use kompakt.Dict.{lookup, get_or, insert, erase_if}
use kompakt.Ledger.{
  NodeEntry, add_node, find_entry, clear_nodes, clear_inflight_by_prefix, reserve,
  snapshot_reservations, restore_reservations,
}
use kompakt.Ledger.Fit.{find_fit, find_fit_existing}
use kompakt.Text.{has_prefix}
use kompakt.Rules.{evaluate_node_ready, evaluate_workload_packing}
use kompakt.Rules.Demand.{extract_demand}
use kompakt.Controller.Gates.{has_kompakt_gates}
use kompakt.Clock.{time_sub}
use kompakt.Controller.Sync.{apply_usage, pods_usage, sync_nodes, sync_node, sync_ledger}
use kompakt.Controller.Reconcile.{Cluster, is_timed_out, evaluate_rules, decide, reconcile}
use kompakt.Controller.Reconcile.Accounts.{reconcile-Reserves}
use kompakt.Rules.{demand_of}
use kompakt.Rules.Accounts.{Reserves, HasMore}
use kompakt.Tests.RuleSamples.{milli, sample_pod, sample_profile}
use kompakt.Prelude.{any, All}
use kompakt.Kube.{not_found}
use kompakt.Text.{slash_free}
use kompakt.Controller.Sync.{missing_resource}
use kompakt.Controller.Sync.Standing.{is_standing}
use kompakt.Controller.Sync.Lasting.{amount}
use kompakt.Controller.Reconcile.Lasting.{
  Evaluates, Call, gone, evaluates, Grow, reconcile_all, reconcile_all-Grow,
}
use kompakt.Tests.ControllerSamples.{
  parse, big_node, soon, late, idle, sample-gated, sample-labelled,
}

reconcile-Reserves_example :
    let synced =
      (sync_ledger milli sample_profile sample_pod soon.nodes soon.pods soon.detections idle.ledger
        idle.active_detectors).ledger in
    let demand = demand_of milli sample_pod sample_profile in
    (k : ℕ) × (k ≤ length sample_profile.spec.rules)
    × Reserves demand k synced (reconcile milli parse soon idle).after.ledger
    × ((name : String) (n : NodeEntry)
        → find_entry name synced ≡ some n
        → (n' : NodeEntry) × (find_entry name (reconcile milli parse soon idle).after.ledger
            ≡ some n')
          × HasMore demand k n n')
reconcile-Reserves_example =
    reconcile-Reserves milli parse soon idle sample_pod "gpu" sample_profile (big_node ∷ []) [] refl
      sample-gated sample-labelled refl refl refl

-- The pod is gone.
abbrev gone_later : Cluster
gone_later = record late { pod = not_found }

big-stands : any (is_standing milli "big" sample_profile) (big_node ∷ []) ≡ true
unfolding missing_resource
big-stands = refl

abbrev evaluated : Evaluates milli parse "big" soon
evaluated = record {
  pod = sample_pod;
  profile_name = "gpu";
  profile = sample_profile;
  nodes = big_node ∷ [];
  pods = [];
  read = refl;
  gated = sample-gated;
  labelled = sample-labelled;
  known = refl;
  nodes_listed = refl;
  pods_listed = refl;
  standing = big-stands;
}

abbrev calls : All (Call milli parse "big") (soon ∷ gone_later ∷ [])
calls = (evaluates evaluated, (gone refl, tt))

big-slash_free : slash_free "big" ≡ true
unfolding slash_free
big-slash_free = refl

nothing_inflight : lookup "big" idle.ledger.inflight ≡ none
unfolding lookup
nothing_inflight = refl

reconcile_all-Grow_example :
    Grow milli parse "big"
      (soon ∷ gone_later ∷ [])
      calls
      (amount "big" idle.ledger)
      (amount "big" (reconcile_all milli parse (soon ∷ gone_later ∷ []) idle).ledger)
reconcile_all-Grow_example =
    reconcile_all-Grow milli parse "big" big-slash_free (soon ∷ gone_later ∷ []) calls idle
      (record { nodes = tt; inflight = tt }) nothing_inflight

-- The pod that is gone still holds its room.
run_gone :
    amount "big" (reconcile_all milli parse (soon ∷ gone_later ∷ []) idle).ledger "cpu" ≡ pos 1000
unfolding reconcile has_kompakt_gates lookup get_or insert erase_if sync_ledger evaluate_rules
    evaluate_node_ready evaluate_workload_packing find_fit find_fit_existing reserve extract_demand
    is_timed_out time_sub ◌-ℤ◌ add64 sub64 snapshot_reservations restore_reservations has_prefix
    decide clear_inflight_by_prefix clear_nodes apply_usage pods_usage sync_nodes sync_node add_node
run_gone = refl
