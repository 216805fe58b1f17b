-- ===== src/Controller/Templates.antt =====
-- Node group templates: `findTemplateForPod`, `findMatchingTemplate` and
-- `templateTaintsToCoreTaints`.
pub mod Matching
use kompakt.Prelude.{
  String, ◌==◌, Bool, true, false, Option, none, some, List, [], ◌∷◌, map, not, all, ◌&&◌,
  if◌then◌else◌,
}
use kompakt.Text.{has_prefix}
use kompakt.Dict.{Dict, get_or}
use kompakt.Kube.{Taint, Toleration, Pod}
use kompakt.Api.{NodeGroupTaint, NodeGroupTemplate}
use kompakt.Scheduling.{tolerate_taint}
use kompakt.Inflight.{InflightNode}

-- The element of a `templateTaintsToCoreTaints`.
abbrev pub core_taint : NodeGroupTaint → Taint
core_taint t = record { key = t.key; value = t.value; effect = t.effect }

-- `templateTaintsToCoreTaints`
abbrev pub template_taints_to_core_taints : List NodeGroupTaint → List Taint
template_taints_to_core_taints taints = map core_taint taints

-- The loop over the node selector.
unfoldable pub template_selector_ok : Dict String → Dict String → Bool
unfolding get_or
template_selector_ok labels selector = all (λ e. get_or "" e.0 labels == e.1) selector

-- The loop over the template's taints.
unfoldable pub template_taints_ok : List Toleration → List Taint → Bool
unfolding tolerate_taint
template_taints_ok tolerations [] = true
template_taints_ok tolerations (taint ∷ taints) =
    let rest = template_taints_ok tolerations taints in
    if not (taint.effect == "NoSchedule") && not (taint.effect == "NoExecute")
    then rest
    else if not (tolerate_taint tolerations taint)
    then false
    else rest

-- `findTemplateForPod`
unfoldable pub find_template_for_pod : Pod → List NodeGroupTemplate → Option NodeGroupTemplate
unfolding template_selector_ok template_taints_ok
find_template_for_pod pod [] = none
find_template_for_pod pod (t ∷ ts) =
    if not (template_selector_ok t.labels pod.node_selector)
    then find_template_for_pod pod ts
    else if not (template_taints_ok pod.tolerations (template_taints_to_core_taints t.taints))
    then find_template_for_pod pod ts
    else some t

-- The first loop of `findMatchingTemplate`.
unfoldable pub find_by_instance_type : String → List NodeGroupTemplate → Option NodeGroupTemplate
find_by_instance_type instance_type [] = none
find_by_instance_type instance_type (t ∷ ts) =
    if not (t.instance_type == "") && t.instance_type == instance_type
    then some t
    else find_by_instance_type instance_type ts

-- The second loop of `findMatchingTemplate`.
unfoldable pub find_by_name_prefix : String → List NodeGroupTemplate → Option NodeGroupTemplate
unfolding has_prefix
find_by_name_prefix name [] = none
find_by_name_prefix name (t ∷ ts) =
    if not (t.name_prefix == "") && has_prefix name t.name_prefix
    then some t
    else find_by_name_prefix name ts

-- `findMatchingTemplate`
unfoldable pub find_matching_template :
    InflightNode → List NodeGroupTemplate → Option NodeGroupTemplate
unfolding find_by_instance_type find_by_name_prefix
find_matching_template node templates =
    if not (node.instance_type == "")
    then elim (find_by_instance_type node.instance_type templates) [
      | some t ↦ some t
      | none ↦ find_by_name_prefix node.name templates
    ]
    else find_by_name_prefix node.name templates
