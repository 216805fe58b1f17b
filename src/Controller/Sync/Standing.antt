-- ===== src/Controller/Sync/Standing.antt =====
-- `syncLedger` and a node that is listed.
use kompakt.Prelude.{
  String, ◌==◌, ◌≡◌, ◌⊎◌, ap, ◌∙◌, Bool, true, false, not, ◌&&◌, any, Option, none, some, List, [],
  ◌∷◌, Bool-cases, inl, inr, arith,
}
use kompakt.Int.{ℤ}
use kompakt.Text.{slash_free}
use kompakt.Dict.{get_or, lookup}
use kompakt.Dict.Laws.{lookup-insert}
use kompakt.Kube.{Quantity, Pod, Node}
use kompakt.Api.{PackingProfile}
use kompakt.Inflight.{InflightNode}
use kompakt.Inflight.NotReady.{milli_values}
use kompakt.Ledger.{Ledger, fresh_entry, add_node, remove_inflight_node}
use kompakt.Controller.Sync.{
  missing_resource, sync_node, sync_nodes, apply_usage, cleared, pods_usage, first_detection,
  Detection,
}
use kompakt.Controller.Sync.Carried.{detected, rebuilt}
use kompakt.Controller.Sync.Kept.{if-both}
use kompakt.Controller.Sync.Bare.{
  is_some, IsBare, IsKnown, cleared-IsBare, add_node-IsBare, remove-IsBare, apply_usage-IsBare,
  apply_usage-IsKnown, sync_inflight-IsBare, sync_inflight-nodes,
}

module _ (milli_value : Quantity → ℤ) (name : String) (profile : PackingProfile) where
  -- A node that the loop over the nodes adds: not being deleted, and with the demanded resources.
  abbrev pub is_standing : Node → Bool
  is_standing node =
      node.name == name
      && not node.deleting
      && not
          (missing_resource profile.spec.demand_source (milli_values milli_value node.allocatable))

  sync_node-IsBare :
      (node : Node) (l : Ledger)
      → IsBare name l
      → IsBare name (sync_node milli_value profile node l)
  unfolding sync_node
  sync_node-IsBare node l h =
      let alloc = milli_values milli_value node.allocatable in
      let added = add_node-IsBare name node alloc l h in
      if-both (IsBare name) node.deleting _ _ h (
        if-both (IsBare name) (missing_resource profile.spec.demand_source alloc) _ _ h (
          if-both (IsBare name)
            (not (get_or "" "goatscaler.io/provision-task-id" node.labels == "")) _ _
            (remove-IsBare name _ _ added) added))

  sync_node-IsKnown :
      (node : Node) (l : Ledger)
      → (is_standing node ≡ true) ⊎ IsKnown name l
      → IsKnown name (sync_node milli_value profile node l)
  unfolding sync_node add_node remove_inflight_node
  sync_node-IsKnown node l h =
      let alloc = milli_values milli_value node.allocatable in
      ground
        (arith, h, lookup-insert node.name name (fresh_entry alloc node.labels node.taints) l.nodes)

  sync_nodes-IsBare :
      (nodes : List Node) (l : Ledger)
      → IsBare name l
      → IsBare name (sync_nodes milli_value profile nodes l)
  unfolding sync_nodes
  sync_nodes-IsBare [] l h = h
  sync_nodes-IsBare (node ∷ nodes) l h = sync_nodes-IsBare nodes _ (sync_node-IsBare node l h)

  sync_nodes-IsKnown :
      (nodes : List Node) (l : Ledger)
      → (any is_standing nodes ≡ true) ⊎ IsKnown name l
      → IsKnown name (sync_nodes milli_value profile nodes l)
  unfolding sync_nodes
  sync_nodes-IsKnown [] l (inr h) = h
  sync_nodes-IsKnown [] l (inl h) = absurd (ground arith)
  sync_nodes-IsKnown (node ∷ nodes) l h =
      let l' = sync_node milli_value profile node l in
      sync_nodes-IsKnown nodes l' (elim (Bool-cases (is_standing node)) [
        | inl here ↦ inr (sync_node-IsKnown node l (inl here))
        | inr not_here ↦ go not_here h
      ])
    where
      go :
          is_standing node ≡ false
          → (any is_standing (node ∷ nodes) ≡ true) ⊎ IsKnown name l
          → (any is_standing nodes ≡ true) ⊎ IsKnown name (sync_node milli_value profile node l)
      go not_here (inl h) = inl (ground arith)
      go not_here (inr h) = inr (sync_node-IsKnown node l (inr h))

  module _ (pod : Pod) (nodes : List Node) (pods : List Pod) (ds : List Detection)
      (l : Ledger) where
    abbrev filled : Ledger
    filled =
        apply_usage (pods_usage milli_value pods [])
          (sync_nodes milli_value profile nodes (cleared profile l))

    -- Before reservations come back, the entry of a listed node has none.
    pub rebuilt-IsBare :
        slash_free name ≡ true
        → lookup name l.inflight ≡ none
        → IsBare name (rebuilt milli_value profile pod nodes pods ds l)
    rebuilt-IsBare s h = go (first_detection ds)
      where
        bare : IsBare name filled
        bare =
            apply_usage-IsBare name (pods_usage milli_value pods []) _
              (sync_nodes-IsBare nodes (cleared profile l) (cleared-IsBare name profile l h))

        go : (o : Option (String × List InflightNode)) → IsBare name (detected profile pod o filled)
        go none = bare
        go (some (by, ns)) = sync_inflight-IsBare name profile pod ns filled s bare

    pub rebuilt-IsKnown :
        any is_standing nodes ≡ true
        → IsKnown name (rebuilt milli_value profile pod nodes pods ds l)
    rebuilt-IsKnown h = go (first_detection ds)
      where
        known : IsKnown name filled
        known =
            apply_usage-IsKnown name (pods_usage milli_value pods []) _
              (sync_nodes-IsKnown nodes (cleared profile l) (inl h))

        go :
            (o : Option (String × List InflightNode)) → IsKnown name (detected profile pod o filled)
        go none = known
        go (some (by, ns)) =
            ap (λ d. is_some (lookup name d)) (sync_inflight-nodes name profile pod ns filled)
            ∙ known
