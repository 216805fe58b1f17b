-- ===== src/Controller/Gates/Pinned.antt =====
-- A pod after `releaseGatesWithAffinity`: the nodes that its affinity allows.
use kompakt.Prelude.{
  String, ◌==◌, ◌≡◌, refl, ap, ◌∙◌, Bool, true, false, not, ◌&&◌, ◌||◌, Option, none, some, List,
  [], ◌∷◌, ◌++◌, map, any, all, is_empty, arith, All, Bool-cases, inl, inr, if◌then◌else◌,
}
use kompakt.Dict.{Dict, lookup}
use kompakt.Kube.{Requirement, SelectorTerm, Affinity, Pod}
use kompakt.Controller.Gates.{
  hostname_requirement, add_requirement, pin_terms, required_terms, pin_affinity,
  release_gates_with_affinity,
}

-- How a scheduler reads the terms of a node affinity: a node is selected if it satisfies all
-- requirements of some term, and a term with none selects nothing. How one requirement is read is a
-- parameter.
module _ (expression_holds field_holds : Requirement → Bool) where
  abbrev pub term_selects : SelectorTerm → Bool
  term_selects t =
      not (is_empty t.match_expressions && is_empty t.match_fields)
      && (all expression_holds t.match_expressions && all field_holds t.match_fields)

  abbrev pub selects : List SelectorTerm → Bool
  selects terms = any term_selects terms

  all-snoc :
      (p : Requirement → Bool) (rs : List Requirement) (r : Requirement)
      → all p (rs ++ r ∷ []) ≡ (p r && all p rs)
  all-snoc p [] r = ground arith
  all-snoc p (q ∷ rs) r = ground (arith, all-snoc p rs r)

  is_empty-snoc : (rs : List Requirement) (r : Requirement) → is_empty (rs ++ r ∷ []) ≡ false
  is_empty-snoc [] r = refl
  is_empty-snoc (q ∷ rs) r = refl

  -- A term that names a requirement.
  abbrev pub IsFilled : SelectorTerm → Type 0
  IsFilled t = (is_empty t.match_expressions && is_empty t.match_fields) ≡ false

  term_selects-add_requirement :
      (r : Requirement) (t : SelectorTerm)
      → IsFilled t
      → term_selects (add_requirement r t) ≡ (expression_holds r && term_selects t)
  term_selects-add_requirement r t filled =
      rw
        (
          is_empty-snoc t.match_expressions r,
          all-snoc expression_holds t.match_expressions r,
          filled,
        )
        (ground arith)

  selects-add_requirement :
      (r : Requirement) (ts : List SelectorTerm)
      → All IsFilled ts
      → selects (map (add_requirement r) ts) ≡ (expression_holds r && selects ts)
  selects-add_requirement r [] h = ground arith
  selects-add_requirement r (t ∷ ts) h =
      ground (arith, term_selects-add_requirement r t h.0, selects-add_requirement r ts h.1)

  -- The nodes that the required terms of an affinity allow: all where there are no terms.
  abbrev pub allows : Option Affinity → Bool
  allows affinity = elim (required_terms affinity) [ none ↦ true | some terms ↦ selects terms ]

  -- The pod's own terms, where a list of no terms counts as none.
  abbrev pub own_terms : Option (List SelectorTerm) → Bool
  own_terms none = true
  own_terms (some terms) = is_empty terms || selects terms

  abbrev pub AreFilled : Option (List SelectorTerm) → Type 0
  AreFilled none = Unit
  AreFilled (some terms) = All IsFilled terms

-- What a label requirement with the operator `In` asks of a node.
abbrev pub is_in : Dict String → String → List String → Bool
is_in labels key values = elim (lookup key labels) [
  | none ↦ false
  | some v ↦ any (λ x. x == v) values
]

-- The label by which a pod is bound to a node's name.
abbrev pub is_host : Dict String → String → Bool
is_host labels name = elim (lookup "kubernetes.io/hostname" labels) [
  | none ↦ false
  | some v ↦ name == v
]

module _ (expression_holds field_holds : Requirement → Bool) (labels : Dict String) where
  -- The documented meaning of `In`.
  abbrev pub ReadsIn : Type 0
  ReadsIn =
      (key : String) (values : List String)
      → expression_holds (record { key = key; operator = "In"; values = values })
        ≡ is_in labels key values

  hostname-is_host :
      ReadsIn → (name : String) → expression_holds (hostname_requirement name) ≡ is_host labels name
  hostname-is_host reads name =
      reads "kubernetes.io/hostname" (name ∷ []) ∙ one (lookup "kubernetes.io/hostname" labels)
    where
      one :
          (o : Option String)
          → (elim o [ none ↦ false | some v ↦ any (λ x. x == v) (name ∷ []) ])
            ≡ (elim o [ none ↦ false | some v ↦ name == v ])
      one none = refl
      one (some v) = ground arith

  selects-pin_terms :
      ReadsIn
      → (name : String) (o : Option (List SelectorTerm)) → AreFilled expression_holds field_holds o
      → selects expression_holds field_holds (pin_terms name o)
        ≡ (is_host labels name && own_terms expression_holds field_holds o)
  unfolding pin_terms
  selects-pin_terms reads name none h = ground (arith, hostname-is_host reads name)
  selects-pin_terms reads name (some []) h = ground (arith, hostname-is_host reads name)
  selects-pin_terms reads name (some (t ∷ ts)) filled =
      selects-add_requirement expression_holds field_holds (hostname_requirement name) (t ∷ ts)
        filled
      ∙ ap (λ b. b && selects expression_holds field_holds (t ∷ ts)) (hostname-is_host reads name)

  -- The pod of a release to a node may run, by its affinity, exactly on nodes whose hostname label is
  -- the name of that node and which one of the pod's own required terms selects, if it had any; a pod
  -- that is released to no node keeps its affinity. The node selector and the tolerations stay as
  -- they were. Each of the pod's own terms names a requirement, and a requirement with the operator
  -- `In` holds for a node if the node has the label with one of the values; how other requirements are
  -- read is left open.
  pub release_gates_with_affinity-allows :
      (pod : Pod) (name reason : String)
      → ReadsIn
      → AreFilled expression_holds field_holds (required_terms pod.affinity)
      → let pod' = release_gates_with_affinity pod name reason in
        (allows expression_holds field_holds pod'.affinity ≡ (
          if name == ""
          then allows expression_holds field_holds pod.affinity
          else is_host labels name
            && own_terms expression_holds field_holds (required_terms pod.affinity)))
        × (pod'.node_selector ≡ pod.node_selector)
        × (pod'.tolerations ≡ pod.tolerations)
  unfolding release_gates_with_affinity pin_affinity
  release_gates_with_affinity-allows pod name reason reads filled = (
    elim (Bool-cases (name == "")) [
      | inl e ↦ rw e refl
      | inr e ↦ rw e (selects-pin_terms reads name (required_terms pod.affinity) filled)
    ],
    refl,
    refl,
  )
