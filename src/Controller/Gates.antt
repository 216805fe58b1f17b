-- ===== src/Controller/Gates.antt =====
-- The gates of a pod: `hasKompaktGates`, `releaseGatesWithAffinity`, `annotatePod`, and the names of
-- labels and annotations from internal/kompakt/labels.go. The functions return the pod that the
-- source hands to `Patch`.
pub mod Released
pub mod Pinned
use kompakt.Prelude.{
  ℕ, String, ◌==◌, Bool, true, false, Option, none, some, List, [], ◌∷◌, ◌++◌, map, any, keep_if,
  not, is_empty, ◌&&◌, if◌then◌else◌,
}
use kompakt.Text.{has_prefix}
use kompakt.Dict.{Dict, get_or, insert, erase}
use kompakt.Kube.{Requirement, SelectorTerm, NodeAffinity, Affinity, Pod}

abbrev pub label_profile : String
label_profile = "packer.kompakt.io/packing-profile"

abbrev pub label_exclude : String
label_exclude = "kompakt.io/exclude"

abbrev pub annotation_priority : String
annotation_priority = "kompakt.io/priority"

abbrev pub annotation_trace_id : String
annotation_trace_id = "kompakt.io/trace-id"

abbrev pub annotation_reason : String
annotation_reason = "kompakt.io/gate-reason"

abbrev pub annotation_node : String
annotation_node = "kompakt.io/target-node"

abbrev pub annotation_held_by : String
annotation_held_by = "kompakt.io/held-by"

abbrev pub gate_prefix : String
gate_prefix = "kompakt.io/"

-- `strings.HasPrefix(gate.Name, gatePrefix)`
unfoldable pub is_kompakt_gate : String → Bool
unfolding has_prefix
is_kompakt_gate gate = has_prefix gate gate_prefix

-- `hasKompaktGates`
unfoldable pub has_kompakt_gates : Pod → Bool
unfolding is_kompakt_gate
has_kompakt_gates pod = any is_kompakt_gate pod.scheduling_gates

-- The annotations that a release writes.
unfoldable pub release_annotations : String → String → Dict String → Dict String
unfolding insert erase
release_annotations node_name reason annotations =
    let noted = insert annotation_reason reason annotations in
    erase annotation_held_by
      (if not (node_name == "") then insert annotation_node node_name noted else noted)

-- `hostnameReq`
abbrev pub hostname_requirement : String → Requirement
hostname_requirement node_name = record {
  key = "kubernetes.io/hostname";
  operator = "In";
  values = node_name ∷ [];
}

abbrev pub add_requirement : Requirement → SelectorTerm → SelectorTerm
add_requirement req term = record term { match_expressions = term.match_expressions ++ req ∷ [] }

-- The required terms with the hostname merged in: into each term, or as the only one.
unfoldable pub pin_terms : String → Option (List SelectorTerm) → List SelectorTerm
pin_terms node_name none =
    (record { match_expressions = hostname_requirement node_name ∷ []; match_fields = [] }) ∷ []
pin_terms node_name (some terms) =
    if not (is_empty terms)
    then map (add_requirement (hostname_requirement node_name)) terms
    else (record { match_expressions = hostname_requirement node_name ∷ []; match_fields = [] })
      ∷ []

-- The required terms of an affinity; nil pointers on the way have none.
abbrev pub required_terms : Option Affinity → Option (List SelectorTerm)
required_terms none = none
required_terms (some a) = elim a.node_affinity [ none ↦ none | some na ↦ na.required ]

-- The affinity of a pod that is released to a node. The empty structures that the source makes
-- for nil pointers get their one field here.
unfoldable pub pin_affinity : String → Option Affinity → Option Affinity
unfolding pin_terms
pin_affinity node_name affinity = some (record {
  node_affinity = some (record { required = some (pin_terms node_name (required_terms affinity)) });
})

-- `releaseGatesWithAffinity`
unfoldable pub release_gates_with_affinity : Pod → String → String → Pod
unfolding release_annotations is_kompakt_gate pin_affinity
release_gates_with_affinity pod node_name reason = record pod {
  annotations = release_annotations node_name reason pod.annotations;
  scheduling_gates = keep_if (λ gate. not (is_kompakt_gate gate)) pod.scheduling_gates;
  affinity = if not (node_name == "") then pin_affinity node_name pod.affinity else pod.affinity;
}

-- `releaseGates`
unfoldable pub release_gates : Pod → String → Pod
unfolding release_gates_with_affinity
release_gates pod reason = release_gates_with_affinity pod "" reason

-- `annotatePod`; `none` where it makes no patch. A map without entries is taken for the nil map, in
-- which the source does not look: the two differ only for an empty value, and the controller writes a
-- rule's name.
unfoldable pub annotate_pod : Pod → String → String → Option Pod
unfolding get_or insert
annotate_pod pod key value =
    if not (is_empty pod.annotations) && get_or "" key pod.annotations == value
    then none
    else some (record pod { annotations = insert key value pod.annotations })
