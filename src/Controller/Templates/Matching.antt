-- ===== src/Controller/Templates/Matching.antt =====
-- `findTemplateForPod` against `nodeMatchesConstraints` of the ledger.
use kompakt.Prelude.{
  ◌≡◌, refl, Bool, ◌&&◌, Option, none, some, List, [], ◌∷◌, all, arith, if◌then◌else◌,
}
use kompakt.Int.{ℤ}
use kompakt.Dict.{Dict}
use kompakt.Kube.{Taint, Toleration, Pod}
use kompakt.Api.{NodeGroupTemplate}
use kompakt.Ledger.{NodeEntry, fresh_entry}
use kompakt.Ledger.Fit.{taint_ok, selector_ok, node_matches_constraints}
use kompakt.Rules.{extract_constraints}
use kompakt.Controller.Templates.{
  template_taints_to_core_taints, template_selector_ok, template_taints_ok, find_template_for_pod,
}

-- The first template of which a test holds.
abbrev pub first_template :
    (NodeGroupTemplate → Bool) → List NodeGroupTemplate → Option NodeGroupTemplate
first_template p [] = none
first_template p (t ∷ ts) = if p t then some t else first_template p ts

-- The entry of a node that has a template's labels and taints.
abbrev pub entry_of : Dict ℤ → NodeGroupTemplate → NodeEntry
entry_of allocatable t = fresh_entry allocatable t.labels (template_taints_to_core_taints t.taints)

taints_ok-eq :
    (tolerations : List Toleration) (taints : List Taint)
    → template_taints_ok tolerations taints ≡ all (taint_ok tolerations) taints
unfolding template_taints_ok taint_ok
taints_ok-eq tolerations [] = refl
taints_ok-eq tolerations (taint ∷ taints) = ground (arith, taints_ok-eq tolerations taints)

template_ok-eq :
    (allocatable : Dict ℤ) (pod : Pod) (t : NodeGroupTemplate)
    → (template_selector_ok t.labels pod.node_selector
        && template_taints_ok pod.tolerations (template_taints_to_core_taints t.taints))
      ≡ node_matches_constraints (entry_of allocatable t) (extract_constraints pod)
unfolding template_selector_ok node_matches_constraints selector_ok
template_ok-eq allocatable pod t =
    ground (arith, taints_ok-eq pod.tolerations (template_taints_to_core_taints t.taints))

-- The template that is chosen for a pod is the first one whose nodes, of whatever capacity, the
-- ledger would hold to match the pod's constraints, and none is chosen if it would match no node of
-- any template.
pub find_template_for_pod-eq :
    (allocatable : Dict ℤ) (pod : Pod) (ts : List NodeGroupTemplate)
    → find_template_for_pod pod ts
      ≡ first_template
          (λ t. node_matches_constraints (entry_of allocatable t) (extract_constraints pod))
          ts
unfolding find_template_for_pod
find_template_for_pod-eq allocatable pod [] = refl
find_template_for_pod-eq allocatable pod (t ∷ ts) =
    ground (arith, template_ok-eq allocatable pod t, find_template_for_pod-eq allocatable pod ts)
