-- ===== src/Inflight/GoatScaler.antt =====
-- internal/inflight/goatscaler.go: nodes from the events of GOATScaler. The two lists of events are
-- `none` where the reader fails. The function that reads a message is a parameter of the loop.
pub mod Events
pub mod Message
use kompakt.Prelude.{
  String, ◌==◌, Bool, true, false, Option, none, some, List, [], ◌∷◌, not, any, ◌&&◌, if◌then◌else◌,
}
use kompakt.Int.{ℤ, pos, ◌-ℤ◌, ltb_ℤ, eqb_ℤ}
use kompakt.Text.{contains}
use kompakt.Kube.{Time}
use kompakt.Inflight.{InflightNode}

-- The fields of an event that are read.
pub record Event : Type 0 where
  pub component : String
  pub reason : String
  pub message : String
  pub last_timestamp : Time
  pub creation : Time

abbrev pub goatscaler_component : String
goatscaler_component = "GOATScaler"

abbrev pub provision_node_reason : String
provision_node_reason = "ProvisionNode"

abbrev pub not_trigger_scale_up_reason : String
not_trigger_scale_up_reason = "NotTriggerScaleUp"

abbrev pub no_stock_signal : String
no_stock_signal = "NodePool NoStock"

abbrev pub default_event_max_age : ℤ
default_event_max_age = pos 900_000_000_000

-- `evTime`
unfoldable pub event_time : Event → Time
event_time ev = elim ev.last_timestamp [ none ↦ ev.creation | some t ↦ some t ]

-- `evTime.Before(cutoff)`; Go's zero time is before every cutoff that occurs.
abbrev pub before : Time → ℤ → Bool
before none cutoff = true
before (some t) cutoff = ltb_ℤ t cutoff

-- `cutoff`; an age of zero stands for the default one.
unfoldable pub cutoff_of : ℤ → ℤ → ℤ
unfolding ◌-ℤ◌
cutoff_of now max_age = now -ℤ (if eqb_ℤ max_age (pos 0) then default_event_max_age else max_age)

-- What a match of the expression holds: node name, zone and instance type.
pub record Provision : Type 0 where
  pub node_name : String
  pub zone : String
  pub instance_type : String

module _ (parse_message : String → Option Provision) (cutoff : ℤ) where
  -- The loop of `Detect`, on the names that were seen; the flag is `NoStockDetected`.
  unfoldable pub event_loop : List Event → List String → Bool → List InflightNode × Bool
  unfolding event_time contains
  event_loop [] seen no_stock = ([], no_stock)
  event_loop (ev ∷ evs) seen no_stock =
      let skip : List InflightNode × Bool = event_loop evs seen no_stock in
      let short : List InflightNode × Bool = event_loop evs seen true in
      if not (ev.component == goatscaler_component)
      then skip
      else if before (event_time ev) cutoff
      then skip
      else if ev.reason == not_trigger_scale_up_reason && contains ev.message no_stock_signal
      then short
      else if not (ev.reason == provision_node_reason)
      then skip
      else elim (parse_message ev.message) [
        | none ↦ skip
        | some p ↦
            if any (λ s. s == p.node_name) seen
            then skip
            else let (nodes, flag) = event_loop evs (p.node_name ∷ seen) no_stock in
              (
                (record {
                  name = p.node_name;
                  allocatable = [];
                  labels = [];
                  instance_type = p.instance_type;
                  detected_at = event_time ev;
                })
                    ∷ nodes,
                flag,
              )
      ]

-- `(*GOATScalerDetector).Detect`: by the field selector, or by the unfiltered list if that fails.
-- Where both fail it returns before it resets the flag.
unfoldable pub detect :
    (String → Option Provision)
    → ℤ
    → ℤ
    → Option (List Event)
    → Option (List Event)
    → Bool
    → List InflightNode × Bool
unfolding event_loop cutoff_of
detect parse_message now max_age (some events) unfiltered flag =
    event_loop parse_message (cutoff_of now max_age) events [] false
detect parse_message now max_age none (some events) flag =
    event_loop parse_message (cutoff_of now max_age) events [] false
detect parse_message now max_age none none flag = ([], flag)

-- `Name`
abbrev pub detector_name : String
detector_name = "goatscaler"
