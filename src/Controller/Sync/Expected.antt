-- ===== src/Controller/Sync/Expected.antt =====
-- `syncLedger` and the reservations on an in-flight node of the profile.
use kompakt.Prelude.{
  String, ◌==◌, ◌≡◌, refl, sym, ap, ◌∙◌, true, Option, none, some, List, [], ◌∷◌, Bool-cases, inl,
  inr,
}
use kompakt.Int.{ℤ, pos}
use kompakt.Text.{◌+++◌, has_prefix}
use kompakt.Dict.{Dict, get_or, lookup}
use kompakt.Dict.Laws.{lookup-insert, lookup-erase_if}
use kompakt.Kube.{Quantity, Pod, Node}
use kompakt.Api.{PackingProfile}
use kompakt.Inflight.{InflightNode}
use kompakt.Ledger.{Ledger, update_usage, add_inflight_node, clear_nodes, clear_inflight_by_prefix}
use kompakt.Ledger.WellFormed.{IsWellFormed}
use kompakt.Ledger.Carrying.{carried, or_else, restored}
use kompakt.Controller.Sync.{
  listed, Detection, cleared, sync_nodes, pods_usage, apply_usage, first_detection,
  sync_inflight_node, sync_inflight, sync_ledger,
}
use kompakt.Controller.Sync.Arriving.{sync_nodes-cleared}
use kompakt.Controller.Sync.Bare.{is_bare, is_some}
use kompakt.Controller.Sync.Carried.{detected, rebuilt, sync_ledger-restored}
use kompakt.Controller.Sync.Lasting.{reserved_of, restored-amount, restored-is_some}

-- What is reserved on an in-flight node, nothing where there is none of the name.
abbrev pub expected_amount : String → Ledger → String → ℤ
expected_amount key l res = get_or (pos 0) res (reserved_of (lookup key l.inflight))

apply_usage-inflight :
    (usage : Dict (Dict ℤ)) (l : Ledger) → (apply_usage usage l).inflight ≡ l.inflight
unfolding apply_usage update_usage
apply_usage-inflight [] l = refl
apply_usage-inflight ((k, used) ∷ usage) l = apply_usage-inflight usage (update_usage k used l)

module _ (key : String) (profile : PackingProfile) (pod : Pod) where
  sync_inflight-is_bare :
      (ns : List InflightNode) (l : Ledger)
      → is_bare (lookup key l.inflight) ≡ true
      → is_bare (lookup key (sync_inflight profile pod ns l).inflight) ≡ true
  unfolding sync_inflight sync_inflight_node add_inflight_node
  sync_inflight-is_bare [] l h = h
  sync_inflight-is_bare (n ∷ ns) l h =
      sync_inflight-is_bare ns (sync_inflight_node profile pod n l) (
        rw (lookup-insert (profile.name +++ ("/" +++ n.name)) key _ l.inflight)
          (elim (Bool-cases (profile.name +++ ("/" +++ n.name) == key)) [
            | inl e ↦ rw e refl
            | inr e ↦ rw e h
          ]))

  cleared-is_bare :
      (l : Ledger)
      → has_prefix key (profile.name +++ "/") ≡ true
      → is_bare (lookup key (cleared profile l).inflight) ≡ true
  unfolding clear_nodes clear_inflight_by_prefix
  cleared-is_bare l h =
      rw (lookup-erase_if (λ k. has_prefix k (profile.name +++ "/")) key l.inflight, h) refl

  module _ (milli_value : Quantity → ℤ) (nodes : List Node) (pods : List Pod) (ds : List Detection)
      (l : Ledger) where
    rebuilt-is_bare :
        has_prefix key (profile.name +++ "/") ≡ true
        → is_bare (lookup key (rebuilt milli_value profile pod nodes pods ds l).inflight) ≡ true
    rebuilt-is_bare h = go (first_detection ds)
      where
        filled : Ledger
        filled =
            apply_usage (pods_usage milli_value pods [])
              (sync_nodes milli_value profile nodes (cleared profile l))

        bare : is_bare (lookup key filled.inflight) ≡ true
        bare =
            ap (λ d. is_bare (lookup key d))
              (apply_usage-inflight (pods_usage milli_value pods []) _
                ∙ sync_nodes-cleared milli_value profile nodes l)
            ∙ cleared-is_bare l h

        go :
            (o : Option (String × List InflightNode))
            → is_bare (lookup key (detected profile pod o filled).inflight) ≡ true
        go none = bare
        go (some (by, ns)) = sync_inflight-is_bare ns filled bare

    -- A rebuild that leaves an in-flight node of the profile leaves what is reserved there.
    pub sync_ledger-expected_amount :
        (active : List String)
        → has_prefix key (profile.name +++ "/") ≡ true
        → IsWellFormed l
        → lookup key l.nodes ≡ none
        → let l' =
            (sync_ledger milli_value profile pod (listed nodes) (listed pods) ds l active).ledger in
          is_some (lookup key l'.inflight) ≡ true
          → (res : String) → expected_amount key l' res ≡ expected_amount key l res
    sync_ledger-expected_amount active h w absent there res =
        let (_, in_flight) =
          sync_ledger-restored milli_value profile pod nodes pods ds l active key w in
        let fresh = lookup key (rebuilt milli_value profile pod nodes pods ds l).inflight in
        let kept = or_else (carried (lookup key l.inflight)) (carried (lookup key l.nodes)) in
        let same : kept ≡ carried (lookup key l.inflight) =
          ap (λ o. or_else (carried (lookup key l.inflight)) (carried o)) absent
          ∙ or_none (carried (lookup key l.inflight)) in
        let known = sym (restored-is_some kept fresh) ∙ sym (ap is_some in_flight) ∙ there in
        ap (λ o. get_or (pos 0) res (reserved_of o)) in_flight
        ∙ ap (λ k. get_or (pos 0) res (reserved_of (restored k fresh))) same
        ∙ restored-amount res (lookup key l.inflight) fresh known (rebuilt-is_bare h)
      where
        or_none : (o : Option (Dict ℤ)) → or_else o none ≡ o
        or_none none = refl
        or_none (some r) = refl
