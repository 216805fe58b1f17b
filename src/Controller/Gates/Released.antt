-- ===== src/Controller/Gates/Released.antt =====
-- A pod after `releaseGatesWithAffinity`.
use kompakt.Prelude.{
  ℕ, suc, String, ◌==◌, eq_iff, ◌≡◌, refl, ap, ◌∙◌, Bool, true, false, not, ◌&&◌, none, some, List,
  [], ◌∷◌, keep_if, any-keep_if_not, arith, Bool-cases, inl, inr, if◌then◌else◌,
}
use kompakt.Dict.{Dict, lookup, insert}
use kompakt.Dict.Laws.{lookup-insert, lookup-erase}
use kompakt.Kube.{Pod}
use kompakt.Controller.Gates.{
  annotation_reason, annotation_node, annotation_held_by, is_kompakt_gate, has_kompakt_gates,
  release_annotations, release_gates_with_affinity,
}

abbrev pub occurrences : String → List String → ℕ
occurrences gate [] = 0
occurrences gate (g ∷ gs) = if g == gate then suc (occurrences gate gs) else occurrences gate gs

occurrences-keep_if :
    (p : String → Bool) (gate : String) (gs : List String)
    → p gate ≡ true
    → occurrences gate (keep_if p gs) ≡ occurrences gate gs
occurrences-keep_if p gate [] h = refl
occurrences-keep_if p gate (g ∷ gs) h = elim (Bool-cases (g == gate)) [
  | inl e ↦
      let kept : p g ≡ true = ap p ((eq_iff g gate).0 e) ∙ h in
      ground (arith, occurrences-keep_if p gate gs h)
  | inr e ↦ ground (arith, occurrences-keep_if p gate gs h)
]

lookup-release_annotations :
    (node_name reason key : String) (d : Dict String)
    → lookup key (release_annotations node_name reason d) ≡ (
        if annotation_held_by == key
        then none
        else if not (node_name == "") && annotation_node == key
        then some node_name
        else if annotation_reason == key
        then some reason
        else lookup key d)
unfolding release_annotations
lookup-release_annotations node_name reason key d = elim (Bool-cases (node_name == "")) [
  | inl e ↦ ground (
    arith,
    lookup-erase annotation_held_by key (insert annotation_reason reason d),
    lookup-insert annotation_reason key reason d,
  )
  | inr e ↦ ground (
    arith,
    lookup-erase annotation_held_by key
        (insert annotation_node node_name (insert annotation_reason reason d)),
    lookup-insert annotation_node key node_name (insert annotation_reason reason d),
    lookup-insert annotation_reason key reason d,
  )
]

not-true : (b : Bool) → not b ≡ true → b ≡ false
not-true b h = ground arith

pub release_gates-kompakt :
    (pod : Pod) (node_name reason : String)
    → has_kompakt_gates (release_gates_with_affinity pod node_name reason) ≡ false
unfolding release_gates_with_affinity has_kompakt_gates
release_gates-kompakt pod node_name reason =
    any-keep_if_not (λ g. not (is_kompakt_gate g)) is_kompakt_gate pod.scheduling_gates
      (λ g h. not-true (is_kompakt_gate g) h)

module _ (pod : Pod) (node_name reason : String) where
  -- A released pod has no gate of the program's, and only such gates were taken: each other gate is
  -- still there as often as it was. Its annotations give the reason of the release and no rule that
  -- holds it, and name the node if there is one; the others are as they were.
  pub released_pod :
      (gate key : String)
      → is_kompakt_gate gate ≡ false
      → (annotation_reason == key) ≡ false
      → (annotation_node == key) ≡ false
      → (annotation_held_by == key) ≡ false
      → let pod' = release_gates_with_affinity pod node_name reason in
        (has_kompakt_gates pod' ≡ false)
        × (occurrences gate pod'.scheduling_gates ≡ occurrences gate pod.scheduling_gates)
        × (lookup annotation_reason pod'.annotations ≡ some reason)
        × (lookup annotation_held_by pod'.annotations ≡ none)
        × (lookup annotation_node pod'.annotations
            ≡ (if node_name == "" then lookup annotation_node pod.annotations else some node_name))
        × (lookup key pod'.annotations ≡ lookup key pod.annotations)
  unfolding release_gates_with_affinity has_kompakt_gates
  released_pod gate key foreign k1 k2 k3 = (
    release_gates-kompakt pod node_name reason,
    occurrences-keep_if (λ g. not (is_kompakt_gate g)) gate pod.scheduling_gates (ap not foreign),
    lookup-release_annotations node_name reason annotation_reason pod.annotations ∙ ground arith,
    lookup-release_annotations node_name reason annotation_held_by pod.annotations,
    lookup-release_annotations node_name reason annotation_node pod.annotations ∙ ground arith,
    lookup-release_annotations node_name reason key pod.annotations ∙ ground arith,
  )
