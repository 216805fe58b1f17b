-- ===== src/Inflight/GoatScaler/Message.antt =====
-- `parseProvisionNodeMessage` and its expression.
pub mod Printed
pub mod Sound
use mathlib.Core.List as L
use kompakt.Prelude.{String, Option, none, some, List, [], ◌∷◌}
use kompakt.Regex.{Item, literal, group, nonspace, any_but_newline, find_submatch}
use kompakt.Inflight.GoatScaler.{Provision}

-- `provisionNodeRegex`
abbrev pub provision_node_regex : List Item
provision_node_regex =
    literal "Provision node "
    ∷ group nonspace
    ∷ literal " in Zone: "
    ∷ group nonspace
    ∷ literal " with InstanceType: "
    ∷ group nonspace
    ∷ literal ", Triggered time "
    ∷ group any_but_newline
    ∷ []

-- `matches[1]`, `matches[2]` and `matches[3]`, if there are as many.
abbrev pub groups_provision : List String → Option Provision
groups_provision (node_name ∷ zone ∷ instance_type ∷ _) =
    some (record { node_name = node_name; zone = zone; instance_type = instance_type })
groups_provision _ = none

-- `parseProvisionNodeMessage`
unfoldable pub parse_provision_node_message : String → Option Provision
unfolding find_submatch
parse_provision_node_message msg = elim (find_submatch provision_node_regex msg) [
  | none ↦ none
  | some groups ↦ groups_provision groups
]
