-- ===== src/Controller/Sync/Bare.antt =====
-- `syncLedger`: an entry while the ledger is filled.
use Prim.Native.String as S
use Prim.Native.String.append
use kompakt.Prelude.{
  String, ◌==◌, eq_iff, ◌≡◌, refl, ◌∙◌, Bool, true, false, Option, none, some, List, [], ◌∷◌,
  is_empty, Option-cases, inl, inr, arith,
}
use kompakt.Int.{ℤ}
use kompakt.Text.{◌+++◌, has_prefix, slash_free}
use kompakt.Dict.{Dict, lookup}
use kompakt.Dict.Laws.{lookup-insert, lookup-insert_ne, lookup-erase, lookup-erase_if}
use kompakt.Kube.{Pod, Node}
use kompakt.Api.{PackingProfile}
use kompakt.Inflight.{InflightNode}
use kompakt.Ledger.{
  NodeEntry, Ledger, fresh_entry, add_node, add_inflight_node, clear_nodes,
  clear_inflight_by_prefix, remove_inflight_node, modify_entry, update_usage,
}
use kompakt.Controller.Sync.{apply_usage, cleared, sync_inflight, sync_inflight_node}

-- Nothing is reserved in the entry, if there is one.
abbrev pub is_bare : Option NodeEntry → Bool
is_bare none = true
is_bare (some n) = is_empty n.reserved

abbrev pub is_some : Option NodeEntry → Bool
is_some none = false
is_some (some n) = true

-- An existing node without reservations, if there is one of the name, and none in flight.
pub record IsBare (name : String) (l : Ledger) : Type 0 where
  pub bare : is_bare (lookup name l.nodes) ≡ true
  pub absent : lookup name l.inflight ≡ none

-- The ledger has an existing node of the name.
abbrev pub IsKnown : String → Ledger → Type 0
IsKnown name l = is_some (lookup name l.nodes) ≡ true

slash_free-join : (p s : String) → slash_free (p +++ ("/" +++ s)) ≡ false
unfolding slash_free
slash_free-join S.[] s = rw (append.nil ("/" +++ s), append.cons "/" "" s) refl
slash_free-join (S.◌∷◌ c p) s = ground (arith, append.cons c p ("/" +++ s), slash_free-join p s)

apart : (name p s : String) → slash_free name ≡ true → ((p +++ ("/" +++ s)) == name) ≡ false
apart name p s h = ground (arith, slash_free-join p s, eq_iff (p +++ ("/" +++ s)) name)

module _ (name : String) where
  pub cleared-IsBare :
      (profile : PackingProfile) (l : Ledger)
      → lookup name l.inflight ≡ none
      → IsBare name (cleared profile l)
  unfolding clear_nodes clear_inflight_by_prefix lookup
  cleared-IsBare profile l h = record {
    bare = refl;
    absent =
        ground (arith, lookup-erase_if (λ k. has_prefix k (profile.name +++ "/")) name l.inflight);
  }

  pub add_node-IsBare :
      (n : Node) (alloc : Dict ℤ) (l : Ledger)
      → IsBare name l
      → IsBare name (add_node n.name alloc n.labels n.taints l)
  unfolding add_node
  add_node-IsBare n alloc l h = record {
    bare =
        ground
          (arith, h.bare, lookup-insert n.name name (fresh_entry alloc n.labels n.taints) l.nodes);
    absent = h.absent;
  }

  pub remove-IsBare :
      (k : String) (l : Ledger) → IsBare name l → IsBare name (remove_inflight_node k l)
  unfolding remove_inflight_node
  remove-IsBare k l h = record {
    bare = h.bare;
    absent = ground (arith, h.absent, lookup-erase k name l.inflight);
  }

  update_usage-lookup :
      (k : String) (used : Dict ℤ) (l : Ledger)
      → (is_bare (lookup name (update_usage k used l).nodes) ≡ is_bare (lookup name l.nodes))
        × (is_some (lookup name (update_usage k used l).nodes) ≡ is_some (lookup name l.nodes))
  unfolding update_usage modify_entry
  update_usage-lookup k used l = elim (Option-cases (lookup k l.nodes)) [
    | inl e ↦ (ground (arith, e), ground (arith, e))
    | inr (n, e) ↦
        let written = lookup-insert k name (record n { used = used }) l.nodes in
        (ground (arith, e, eq_iff k name, written), ground (arith, e, eq_iff k name, written))
  ]

  pub apply_usage-IsBare :
      (usage : Dict (Dict ℤ)) (l : Ledger) → IsBare name l → IsBare name (apply_usage usage l)
  unfolding apply_usage update_usage
  apply_usage-IsBare [] l h = h
  apply_usage-IsBare ((k, used) ∷ usage) l h =
      apply_usage-IsBare usage (update_usage k used l)
        (record { bare = (update_usage-lookup k used l).0 ∙ h.bare; absent = h.absent })

  pub apply_usage-IsKnown :
      (usage : Dict (Dict ℤ)) (l : Ledger) → IsKnown name l → IsKnown name (apply_usage usage l)
  unfolding apply_usage
  apply_usage-IsKnown [] l h = h
  apply_usage-IsKnown ((k, used) ∷ usage) l h =
      apply_usage-IsKnown usage (update_usage k used l) ((update_usage-lookup k used l).1 ∙ h)

  pub sync_inflight-IsBare :
      (profile : PackingProfile) (pod : Pod) (ns : List InflightNode) (l : Ledger)
      → slash_free name ≡ true
      → IsBare name l
      → IsBare name (sync_inflight profile pod ns l)
  unfolding sync_inflight sync_inflight_node add_inflight_node
  sync_inflight-IsBare profile pod [] l s h = h
  sync_inflight-IsBare profile pod (n ∷ ns) l s h =
      sync_inflight-IsBare profile pod ns (sync_inflight_node profile pod n l) s (record {
        bare = h.bare;
        absent =
            lookup-insert_ne (profile.name +++ ("/" +++ n.name)) name _ l.inflight
              (apart name profile.name n.name s)
            ∙ h.absent;
      })

  pub sync_inflight-nodes :
      (profile : PackingProfile) (pod : Pod) (ns : List InflightNode) (l : Ledger)
      → (sync_inflight profile pod ns l).nodes ≡ l.nodes
  unfolding sync_inflight sync_inflight_node add_inflight_node
  sync_inflight-nodes profile pod [] l = refl
  sync_inflight-nodes profile pod (n ∷ ns) l =
      sync_inflight-nodes profile pod ns (sync_inflight_node profile pod n l)
