-- ===== src/Inflight/GoatScaler/Events.antt =====
-- The loop over GOATScaler's events.
use kompakt.Prelude.{
  String, ◌==◌, eq_iff, eq_refl, ◌≡◌, refl, ap, ◌∙◌, Bool, true, false, not, ◌&&◌, ◌||◌, Option,
  none, some, List, [], ◌∷◌, any, Bool-cases, Option-cases, inl, inr, arith, if◌then◌else◌,
}
use kompakt.Int.{ℤ}
use kompakt.Text.{contains}
use kompakt.Inflight.{InflightNode}
use kompakt.Inflight.GoatScaler.{
  Event, Provision, goatscaler_component, provision_node_reason, not_trigger_scale_up_reason,
  no_stock_signal, event_time, before, event_loop,
}

abbrev pub named : String → List InflightNode → Bool
named name nodes = any (λ n. n.name == name) nodes

-- No two of the nodes have one name.
abbrev pub AreDistinct : List InflightNode → Type 0
AreDistinct [] = Unit
AreDistinct (n ∷ ns) = (named n.name ns ≡ false) × AreDistinct ns

either :
    (b : Bool) (x y : List InflightNode × Bool)
    → AreDistinct x.0
    → AreDistinct y.0
    → AreDistinct (if b then x else y).0
either true x y p q = p
either false x y p q = q

pick :
    (b1 b2 b3 b4 : Bool) (same flagged last : List InflightNode × Bool)
    → AreDistinct same.0
    → AreDistinct flagged.0
    → AreDistinct last.0
    → AreDistinct
        (if b1
          then same
          else if b2
          then same
          else if b3
          then flagged
          else if b4
          then same
          else last).0
pick true b2 b3 b4 same flagged last p q r = p
pick false true b3 b4 same flagged last p q r = p
pick false false true b4 same flagged last p q r = q
pick false false false true same flagged last p q r = p
pick false false false false same flagged last p q r = r

reasons_differ :
    (r : String) → (r == not_trigger_scale_up_reason) ≡ true → (r == provision_node_reason) ≡ false
reasons_differ r h =
    ap (λ x. x == provision_node_reason) ((eq_iff r not_trigger_scale_up_reason).0 h)

abbrev node_of : Event → Provision → InflightNode
node_of ev p = record {
  name = p.node_name;
  allocatable = [];
  labels = [];
  instance_type = p.instance_type;
  detected_at = event_time ev;
}

module _ (parse_message : String → Option Provision) (cutoff : ℤ) where
  -- An event that `Detect` takes for a node, with what its message says; `seen` plays no part.
  abbrev pub provision_of : Event → Option Provision
  provision_of ev =
      if not (ev.component == goatscaler_component) || before (event_time ev) cutoff
      then none
      else if not (ev.reason == provision_node_reason)
      then none
      else parse_message ev.message

  -- Whether some event is taken for a node of the name.
  abbrev pub provisioned : String → List Event → Bool
  provisioned name evs =
      any (λ ev. elim (provision_of ev) [ none ↦ false | some p ↦ p.node_name == name ]) evs

  event_loop-named :
      (name : String) (evs : List Event) (seen : List String) (no_stock : Bool)
      → named name (event_loop parse_message cutoff evs seen no_stock).0
        ≡ (provisioned name evs && not (any (λ s. s == name) seen))
  unfolding event_loop
  event_loop-named name [] seen no_stock = refl
  event_loop-named name (ev ∷ evs) seen no_stock = elim (Option-cases (parse_message ev.message)) [
    | inl lost ↦ ground (
      arith,
      reasons_differ ev.reason,
      event_loop-named name evs seen no_stock,
      event_loop-named name evs seen true,
    )
    | inr (p, e) ↦ elim (Bool-cases (p.node_name == name)) [
      | inl same ↦
          let one : any (λ s. s == p.node_name) seen ≡ any (λ s. s == name) seen =
            ap (λ k. any (λ s. s == k) seen) ((eq_iff p.node_name name).0 same) in
          ground (
            arith,
            reasons_differ ev.reason,
            event_loop-named name evs seen no_stock,
            event_loop-named name evs seen true,
            event_loop-named name evs (p.node_name ∷ seen) no_stock,
          )
      | inr other ↦ ground (
        arith,
        reasons_differ ev.reason,
        event_loop-named name evs seen no_stock,
        event_loop-named name evs seen true,
        event_loop-named name evs (p.node_name ∷ seen) no_stock,
      )
    ]
  ]

  -- What the loop makes of an event whose message was read.
  abbrev taken :
      Event → List Event → List String → Bool → Option Provision → List InflightNode × Bool
  taken ev evs seen no_stock none = event_loop parse_message cutoff evs seen no_stock
  taken ev evs seen no_stock (some p) =
      if any (λ s. s == p.node_name) seen
      then event_loop parse_message cutoff evs seen no_stock
      else (
        node_of ev p ∷ (event_loop parse_message cutoff evs (p.node_name ∷ seen) no_stock).0,
        (event_loop parse_message cutoff evs (p.node_name ∷ seen) no_stock).1,
      )

  event_loop-AreDistinct :
      (evs : List Event) (seen : List String) (no_stock : Bool)
      → AreDistinct (event_loop parse_message cutoff evs seen no_stock).0
  unfolding event_loop
  event_loop-AreDistinct [] seen no_stock = tt
  event_loop-AreDistinct (ev ∷ evs) seen no_stock =
      pick (not (ev.component == goatscaler_component)) (before (event_time ev) cutoff)
        (ev.reason == not_trigger_scale_up_reason && contains ev.message no_stock_signal)
        (not (ev.reason == provision_node_reason))
        (event_loop parse_message cutoff evs seen no_stock)
        (event_loop parse_message cutoff evs seen true)
        (taken ev evs seen no_stock (parse_message ev.message))
        (event_loop-AreDistinct evs seen no_stock) (event_loop-AreDistinct evs seen true)
        (go (event_loop-AreDistinct evs seen no_stock)
          (λ p. event_loop-AreDistinct evs (p.node_name ∷ seen) no_stock)
          (parse_message ev.message))
    where
      go :
          AreDistinct (event_loop parse_message cutoff evs seen no_stock).0
          → ((p : Provision)
              → AreDistinct (event_loop parse_message cutoff evs (p.node_name ∷ seen) no_stock).0)
          → (o : Option Provision) → AreDistinct (taken ev evs seen no_stock o).0
      go skip rest none = skip
      go skip rest (some p) =
          either (any (λ s. s == p.node_name) seen)
            (event_loop parse_message cutoff evs seen no_stock)
            (
              node_of ev p ∷ (event_loop parse_message cutoff evs (p.node_name ∷ seen) no_stock).0,
              (event_loop parse_message cutoff evs (p.node_name ∷ seen) no_stock).1,
            )
            skip
            (
              event_loop-named p.node_name evs (p.node_name ∷ seen) no_stock
                  ∙ ground (arith, eq_refl p.node_name),
              rest p,
            )

  -- The nodes that `Detect` makes of the events have different names, one for each name that an
  -- event of the autoscaler, recent and with a message that can be read, says is provisioned.
  pub event_loop-exact :
      (evs : List Event) (no_stock : Bool) (name : String)
      → let nodes = (event_loop parse_message cutoff evs [] no_stock).0 in
        AreDistinct nodes × (named name nodes ≡ provisioned name evs)
  event_loop-exact evs no_stock name =
      (event_loop-AreDistinct evs [] no_stock, event_loop-named name evs [] no_stock ∙ ground arith)
