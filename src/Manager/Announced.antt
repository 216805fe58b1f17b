-- ===== src/Manager/Announced.antt =====
-- From an event of GOATScaler to the ledger: the detectors of `main` in `syncLedger`.
use kompakt.Prelude.{
  String, ◌==◌, eq_iff, eq_refl, ◌≡◌, refl, ap, ◌∙◌, Bool, true, false, none, some, List, [], ◌∷◌,
  ◌++◌, any, is_empty, Bool-cases, inl, inr, arith,
}
use kompakt.Int.{ℤ, pos, ◌+ℤ◌, ◌-ℤ◌, ◌≤ℤ◌, ltb_ℤ}
use kompakt.Text.{◌+++◌}
use kompakt.Regex.{nonspace, any_but_newline}
use kompakt.Regex.Words.{is_word}
use kompakt.Dict.{lookup}
use kompakt.Dict.Laws.{lookup-insert}
use kompakt.Kube.{Quantity, Pod, Node}
use kompakt.Api.{PackingProfile}
use kompakt.Ledger.{Ledger, add_inflight_node}
use kompakt.Ledger.WellFormed.{IsWellFormed}
use kompakt.Inflight.{InflightNode}
use kompakt.Inflight.ClusterAutoscaler
use kompakt.Inflight.GoatScaler.{
  Event, goatscaler_component, provision_node_reason, default_event_max_age, event_time, before,
  cutoff_of, event_loop,
}
use kompakt.Inflight.GoatScaler
use kompakt.Inflight.GoatScaler.Events.{named, provision_of, event_loop-exact}
use kompakt.Inflight.GoatScaler.Message.{parse_provision_node_message}
use kompakt.Inflight.GoatScaler.Message.Printed.{message, parse_provision_node_message-message}
use kompakt.Controller.Sync.{
  listed, sync_ledger, sync_inflight, sync_inflight_node, first_detection, sync_nodes, apply_usage,
  pods_usage, cleared,
}
use kompakt.Controller.Sync.Bare.{is_some}
use kompakt.Controller.Sync.Carried.{detected, sync_ledger-restored}
use kompakt.Controller.Sync.Lasting.{restored-is_some}
use kompakt.Manager.{Signals, detections}
use kompakt.Manager.Fallback.{first_detection-detections}

-- An event that says, not longer than fifteen minutes ago, that a node of the name is provisioned.
pub record Announcement (now : ℤ) (name : String) (ev : Event) : Type 0 where
  pub zone : String
  pub instance_type : String
  pub triggered : String
  pub moment : ℤ
  pub component : ev.component ≡ goatscaler_component
  pub reason : ev.reason ≡ provision_node_reason
  pub text : ev.message ≡ message name zone instance_type triggered
  pub name_word : is_word nonspace name ≡ true
  pub zone_word : is_word nonspace zone ≡ true
  pub instance_type_word : is_word nonspace instance_type ≡ true
  pub triggered_line : is_word any_but_newline triggered ≡ true
  pub dated : event_time ev ≡ some moment
  pub recent : now ≤ℤ moment +ℤ default_event_max_age

any_there :
    (p : Event → Bool) (evs evs' : List Event) (ev : Event)
    → p ev ≡ true
    → any p (evs ++ ev ∷ evs') ≡ true
any_there p [] evs' ev h = ground arith
any_there p (e ∷ evs) evs' ev h = ground (arith, any_there p evs evs' ev h)

module _ (now : ℤ) (name : String) where
  cutoff_passed :
      (t : ℤ) → now ≤ℤ t +ℤ default_event_max_age → ltb_ℤ t (cutoff_of now (pos 0)) ≡ false
  unfolding cutoff_of ◌-ℤ◌ ◌+ℤ◌
  cutoff_passed t h = ground arith

  abbrev is_taken : Event → Bool
  is_taken ev = elim (provision_of parse_provision_node_message (cutoff_of now (pos 0)) ev) [
    | none ↦ false
    | some p ↦ p.node_name == name
  ]

  announced-taken : (ev : Event) → Announcement now name ev → is_taken ev ≡ true
  announced-taken ev h =
      let read =
        parse_provision_node_message-message name h.zone h.instance_type h.triggered h.name_word
          h.zone_word h.instance_type_word h.triggered_line in
      let parsed = ap parse_provision_node_message h.text ∙ read in
      let by = (eq_iff ev.component goatscaler_component).1 h.component in
      let why = (eq_iff ev.reason provision_node_reason).1 h.reason in
      ground (arith, by, h.dated, cutoff_passed h.moment h.recent, why, parsed, eq_refl name)

  -- The nodes of the events have the name.
  announced-named :
      (evs evs' : List Event) (ev : Event)
      → Announcement now name ev
      → named name
          (event_loop parse_provision_node_message
            (cutoff_of now (pos 0))
            (evs ++ ev ∷ evs')
            []
            false).0
        ≡ true
  announced-named evs evs' ev h =
      (event_loop-exact parse_provision_node_message (cutoff_of now (pos 0)) (evs ++ ev ∷ evs')
        false name).1
      ∙ any_there is_taken evs evs' ev (announced-taken ev h)

  named-filled : (nodes : List InflightNode) → named name nodes ≡ true → is_empty nodes ≡ false
  named-filled [] h = absurd (ground arith)
  named-filled (n ∷ nodes) h = refl

  module _ (profile : PackingProfile) (pod : Pod) where
    abbrev key : String
    key = profile.name +++ ("/" +++ name)

    abbrev IsThere : Ledger → Type 0
    IsThere l = is_some (lookup key l.inflight) ≡ true

    sync_inflight_node-same :
        (n : InflightNode) (l : Ledger)
        → (n.name == name) ≡ true
        → IsThere (sync_inflight_node profile pod n l)
    unfolding sync_inflight_node add_inflight_node
    sync_inflight_node-same n l h =
        let same : profile.name +++ ("/" +++ n.name) ≡ key =
          ap (λ k. profile.name +++ ("/" +++ k)) ((eq_iff n.name name).0 h) in
        rw (lookup-insert (profile.name +++ ("/" +++ n.name)) key _ l.inflight, same, eq_refl key)
          refl

    sync_inflight_node-kept :
        (n : InflightNode) (l : Ledger) → IsThere l → IsThere (sync_inflight_node profile pod n l)
    unfolding sync_inflight_node add_inflight_node
    sync_inflight_node-kept n l h =
        rw (lookup-insert (profile.name +++ ("/" +++ n.name)) key _ l.inflight)
          (elim (Bool-cases (profile.name +++ ("/" +++ n.name) == key)) [
            | inl e ↦ rw e refl
            | inr e ↦ rw e h
          ])

    sync_inflight-kept :
        (nodes : List InflightNode) (l : Ledger)
        → IsThere l
        → IsThere (sync_inflight profile pod nodes l)
    unfolding sync_inflight
    sync_inflight-kept [] l h = h
    sync_inflight-kept (n ∷ nodes) l h =
        sync_inflight-kept nodes (sync_inflight_node profile pod n l)
          (sync_inflight_node-kept n l h)

    -- The loop over the in-flight nodes has an entry for each name.
    sync_inflight-named :
        (nodes : List InflightNode) (l : Ledger)
        → named name nodes ≡ true
        → IsThere (sync_inflight profile pod nodes l)
    unfolding sync_inflight
    sync_inflight-named [] l h = absurd (ground arith)
    sync_inflight-named (n ∷ nodes) l h = elim (Bool-cases (n.name == name)) [
      | inl same ↦ sync_inflight-kept nodes _ (sync_inflight_node-same n l same)
      | inr other ↦ sync_inflight-named nodes (sync_inflight_node profile pod n l) (ground arith)
    ]

    module _ (milli_value : Quantity → ℤ) (flag : Bool) (s : Signals) (evs evs' : List Event)
        (ev : Event) (announced : Announcement now name ev)
        (read : s.events ≡ some (evs ++ ev ∷ evs'))
        (silent : ClusterAutoscaler.detect s.status ≡ []) where
      abbrev nodes_of : List InflightNode
      nodes_of =
          (event_loop parse_provision_node_message (cutoff_of now (pos 0)) (evs ++ ev ∷ evs') []
            false).0

      first_detection-announced :
          first_detection (detections milli_value now flag s) ≡ some ("goatscaler", nodes_of)
      unfolding GoatScaler.detect
      first_detection-announced =
          let filled = named-filled nodes_of (announced-named evs evs' ev announced) in
          first_detection-detections milli_value now flag s ∙ rw (silent, read, filled) refl

      -- An event of GOATScaler that says, at most fifteen minutes ago, that a node is provisioned comes
      -- to the ledger: after a `syncLedger` with `main`'s detectors whose lists work, the ledger has an
      -- in-flight entry of the profile for the node, unless the autoscaler's status shows nodes on their
      -- way. The event is among those that the field selector lists, with whatever others, its message is
      -- of the format that the detector reads, and the ledger before is well formed.
      pub sync_ledger-announced :
          (nodes : List Node) (pods : List Pod) (l : Ledger) (active : List String)
          → IsWellFormed l
          → let l' =
              (sync_ledger milli_value profile pod
                (listed nodes)
                (listed pods)
                (detections milli_value now flag s)
                l
                active).ledger in
            is_some (lookup (profile.name +++ ("/" +++ name)) l'.inflight) ≡ true
      sync_ledger-announced nodes pods l active w =
          let ds = detections milli_value now flag s in
          let (_, restored) =
            sync_ledger-restored milli_value profile pod nodes pods ds l active key w in
          let filled =
            apply_usage (pods_usage milli_value pods [])
              (sync_nodes milli_value profile nodes (cleared profile l)) in
          ap is_some restored
          ∙ restored-is_some _ _
          ∙ ap (λ o. is_some (lookup key (detected profile pod o filled).inflight))
              first_detection-announced
          ∙ sync_inflight-named nodes_of filled (announced-named evs evs' ev announced)
