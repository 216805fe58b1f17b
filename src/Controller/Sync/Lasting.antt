-- ===== src/Controller/Sync/Lasting.antt =====
-- `syncLedger` and the reservations on a listed node.
use kompakt.Prelude.{String, ◌≡◌, refl, ap, ◌∙◌, true, any, Option, none, some, List, [], arith}
use kompakt.Int.{ℤ, pos}
use kompakt.Text.{slash_free}
use kompakt.Dict.{Dict, get_or, lookup}
use kompakt.Kube.{Quantity, Pod, Node}
use kompakt.Api.{PackingProfile}
use kompakt.Ledger.{NodeEntry, Ledger}
use kompakt.Ledger.WellFormed.{IsWellFormed}
use kompakt.Ledger.Carrying.{carried, or_else, restored}
use kompakt.Controller.Sync.{listed, Detection, sync_ledger}
use kompakt.Controller.Sync.Carried.{rebuilt, sync_ledger-restored}
use kompakt.Controller.Sync.Bare.{is_bare, is_some, IsKnown}
use kompakt.Controller.Sync.Standing.{is_standing, rebuilt-IsBare, rebuilt-IsKnown}

abbrev pub reserved_of : Option NodeEntry → Dict ℤ
reserved_of none = []
reserved_of (some n) = n.reserved

-- What is reserved on an existing node, nothing where there is none of the name.
abbrev pub amount : String → Ledger → String → ℤ
amount name l res = get_or (pos 0) res (reserved_of (lookup name l.nodes))

pub restored-amount :
    (res : String) (o fresh : Option NodeEntry)
    → is_some fresh ≡ true
    → is_bare fresh ≡ true
    → get_or (pos 0) res (reserved_of (restored (carried o) fresh))
      ≡ get_or (pos 0) res (reserved_of o)
unfolding get_or lookup
restored-amount res o none h k = absurd (ground arith)
restored-amount res none (some m) h k = ground arith
restored-amount res (some n) (some m) h k = ground arith

pub restored-is_some :
    (kept : Option (Dict ℤ)) (fresh : Option NodeEntry)
    → is_some (restored kept fresh) ≡ is_some fresh
restored-is_some kept none = refl
restored-is_some none (some m) = refl
restored-is_some (some r) (some m) = refl

-- A rebuild leaves what is reserved on a listed node as it was, and the node in the ledger.
pub sync_ledger-amount :
    (milli_value : Quantity → ℤ) (name : String) (profile : PackingProfile) (pod : Pod)
    (nodes : List Node) (pods : List Pod) (ds : List Detection) (l : Ledger) (active : List String)
    → slash_free name ≡ true
    → IsWellFormed l
    → lookup name l.inflight ≡ none
    → any (is_standing milli_value name profile) nodes ≡ true
    → let l' =
        (sync_ledger milli_value profile pod (listed nodes) (listed pods) ds l active).ledger in
      IsKnown name l'
      × (lookup name l'.inflight ≡ none)
      × ((res : String) → amount name l' res ≡ amount name l res)
sync_ledger-amount milli_value name profile pod nodes pods ds l active s w absent h =
    let (in_nodes, in_flight) =
      sync_ledger-restored milli_value profile pod nodes pods ds l active name w in
    let bare = rebuilt-IsBare milli_value name profile pod nodes pods ds l s absent in
    let known = rebuilt-IsKnown milli_value name profile pod nodes pods ds l h in
    let fresh = rebuilt milli_value profile pod nodes pods ds l in
    let kept = or_else (carried (lookup name l.inflight)) (carried (lookup name l.nodes)) in
    let same : kept ≡ carried (lookup name l.nodes) =
      ap (λ o. or_else (carried o) (carried (lookup name l.nodes))) absent in
    (
      ap is_some in_nodes ∙ restored-is_some kept (lookup name fresh.nodes) ∙ known,
      in_flight ∙ ap (restored kept) bare.absent,
      (λ res.
          ap (λ o. get_or (pos 0) res (reserved_of o)) in_nodes
          ∙ ap (λ k. get_or (pos 0) res (reserved_of (restored k (lookup name fresh.nodes)))) same
          ∙ restored-amount res (lookup name l.nodes) (lookup name fresh.nodes) known bare.bare),
    )
