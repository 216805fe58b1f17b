-- ===== src/Controller/Sync/Arriving.antt =====
-- `syncLedger`: what the loop over the nodes does to in-flight entries.
use mathlib.Core.Path.{subst}
use kompakt.Prelude.{
  String, eq_iff, ◌≡◌, refl, sym, ◌∙◌, true, false, List, [], ◌∷◌, All, Bool-cases, inl, inr, arith,
}
use kompakt.Int.{ℤ}
use kompakt.Text.{◌+++◌, has_prefix, has_prefix-join}
use kompakt.Dict.{Dict, get_or, erase, erase_if}
use kompakt.Kube.{Quantity, Node}
use kompakt.Api.{PackingProfile}
use kompakt.Ledger.{
  NodeEntry, Ledger, add_node, clear_nodes, clear_inflight_by_prefix, remove_inflight_node,
}
use kompakt.Controller.Sync.{sync_node, sync_nodes, cleared}

-- No key has the prefix.
abbrev pub IsWithout : String → Dict NodeEntry → Type 0
IsWithout p d = All (λ e. has_prefix e.0 p ≡ false) d

erase_if-IsWithout :
    (p : String) (d : Dict NodeEntry) → IsWithout p (erase_if (λ j. has_prefix j p) d)
unfolding erase_if
erase_if-IsWithout p [] = tt
erase_if-IsWithout p ((k, n) ∷ d) = elim (Bool-cases (has_prefix k p)) [
  | inl e ↦ rw e (erase_if-IsWithout p d)
  | inr e ↦ rw e (e, erase_if-IsWithout p d)
]

erase-IsWithout :
    (p k : String) (d : Dict NodeEntry) → has_prefix k p ≡ true → IsWithout p d → erase k d ≡ d
unfolding erase
erase-IsWithout p k [] h w = refl
erase-IsWithout p k ((j, n) ∷ d) h (w, ws) = ground (arith, eq_iff j k, erase-IsWithout p k d h ws)

module _ (milli_value : Quantity → ℤ) (profile : PackingProfile) where
  abbrev prefix : String
  prefix = profile.name +++ "/"

  sync_node-inflight :
      (node : Node) (l : Ledger)
      → IsWithout prefix l.inflight
      → (sync_node milli_value profile node l).inflight ≡ l.inflight
  unfolding sync_node remove_inflight_node add_node
  sync_node-inflight node l w =
      let task_id = get_or "" "goatscaler.io/provision-task-id" node.labels in
      ground (
        arith,
        erase-IsWithout prefix (profile.name +++ ("/" +++ task_id)) l.inflight
            (has_prefix-join profile.name task_id) w,
      )

  sync_nodes-inflight :
      (nodes : List Node) (l : Ledger)
      → IsWithout prefix l.inflight
      → (sync_nodes milli_value profile nodes l).inflight ≡ l.inflight
  unfolding sync_nodes
  sync_nodes-inflight [] l w = refl
  sync_nodes-inflight (node ∷ nodes) l w =
      let one = sync_node-inflight node l w in
      sync_nodes-inflight nodes (sync_node milli_value profile node l)
        (subst (IsWithout prefix) (sym one) w)
      ∙ one

  -- In `syncLedger` the loop over the nodes takes no in-flight entry away, whatever provision task
  -- the nodes' labels name: the entries of the profile, the only ones that it would take away, were
  -- all cleared before.
  pub sync_nodes-cleared :
      (nodes : List Node) (l : Ledger)
      → (sync_nodes milli_value profile nodes (cleared profile l)).inflight
        ≡ (cleared profile l).inflight
  unfolding clear_nodes clear_inflight_by_prefix
  sync_nodes-cleared nodes l =
      sync_nodes-inflight nodes (cleared profile l) (erase_if-IsWithout prefix l.inflight)
