-- ===== src/Ledger/Choice.antt =====
-- `FindFit` and `FindFitExisting` of internal/ledger/ledger.go: the node that they return.
use kompakt.Prelude.{
  String, ◌==◌, eq_iff, ◌≡◌, refl, sym, ap, ◌∙◌, ◌⊎◌, Bool, true, false, Option, none, some, [],
  ◌∷◌, arith, Bool-cases, Option-cases, inl, inr, if◌then◌else◌,
}
use mathlib.Core.Path.{subst}
use kompakt.Int.{ℤ, pos, ◌≤ℤ◌, ◌<ℤ◌, ltb_ℤ, max_int64}
use kompakt.Dict.{Dict, lookup, UniqueKeys}
use kompakt.Ledger.{NodeEntry, Ledger, clear_inflight}
use kompakt.Ledger.Fit.{
  PodSchedulingConstraints, node_matches_constraints, slack_loop, Best, no_best, check, check_all,
  find_fit, check_existing, check_all_existing, find_fit_existing,
}
use kompakt.Ledger.BestFit.{IsEligible, check_all-le, check_all-least, check_all-cases}

-- The name in an answer of `FindFit`.
abbrev pub name_of : Option (String × Bool) → Option String
name_of none = none
name_of (some (name, _)) = some name

module _ (demand : Dict ℤ) (constraints : Option PodSchedulingConstraints) where
  -- An in-flight node replaces the best so far only if its slack is smaller.
  check_strict :
      (e : String × NodeEntry) (best : Best)
      → (check demand constraints true e best ≡ best)
        ⊎ ((check demand constraints true e best).slack <ℤ best.slack)
  unfolding check
  check_strict (name, n) best = elim (Bool-cases (node_matches_constraints n constraints)) [
    | inr m ↦ inl (ground arith)
    | inl m ↦ elim (Option-cases (slack_loop n demand (pos 0))) [
      | inl none_fits ↦ inl (ground arith)
      | inr (s, fits) ↦ elim (Bool-cases (ltb_ℤ s best.slack)) [
        | inl better ↦ inr (ground arith)
        | inr worse ↦ inl (ground arith)
      ]
    ]
  ]

  check_all_strict :
      (d : Dict NodeEntry) (best : Best)
      → (check_all demand constraints true d best ≡ best)
        ⊎ ((check_all demand constraints true d best).slack <ℤ best.slack)
  unfolding check_all
  check_all_strict [] best = inl refl
  check_all_strict (e ∷ d) best = elim (check_strict e best) [
    | inl same ↦
        subst
          (λ b.
            (check_all demand constraints true d b ≡ best)
            ⊎ ((check_all demand constraints true d b).slack <ℤ best.slack))
          (sym same) (check_all_strict d best)
    | inr less ↦ inr (
        omega
          (arith, check_all-le demand constraints true d (check demand constraints true e best)))
  ]

  module _ (l : Ledger) where
    abbrev after_nodes : Best
    after_nodes = check_all demand constraints false l.nodes no_best

    abbrev pub after_inflight : Best
    after_inflight = check_all demand constraints true l.inflight after_nodes

    -- The best node as a pair, or none.
    find_fit-after : find_fit demand constraints l ≡ (
        if after_inflight.name == ""
        then none
        else some (after_inflight.name, after_inflight.inflight))
    unfolding find_fit
    find_fit-after = refl

    abbrev pub Chosen : String → Bool → NodeEntry → ℤ → Type 0
    Chosen name inflight n slack =
        (lookup name (if inflight then l.inflight else l.nodes) ≡ some n)
        × IsEligible demand constraints n slack

    Chosen-best :
        (UniqueKeys l.nodes)
        → (UniqueKeys l.inflight)
        → (after_inflight ≡ no_best)
          ⊎ ((n : NodeEntry) × Chosen after_inflight.name after_inflight.inflight n
                after_inflight.slack)
    Chosen-best un ui = elim (check_all-cases demand constraints true l.inflight after_nodes ui) [
      | inr (name, n, s, found, el, e) ↦ inr (n, rw e (found, el))
      | inl kept ↦ elim (check_all-cases demand constraints false l.nodes no_best un) [
        | inl none_found ↦ inl (kept ∙ none_found)
        | inr (name, n, s, found, el, e) ↦ inr (n, rw (kept ∙ e) (found, el))
      ]
    ]

    pub find_fit-some :
        (name : String) (inflight : Bool)
        → find_fit demand constraints l ≡ some (name, inflight)
        → ((after_inflight.name == "") ≡ false)
          × (after_inflight.name ≡ name)
          × (after_inflight.inflight ≡ inflight)
    find_fit-some name inflight h = ground (arith, find_fit-after)

    find_fit-none : find_fit demand constraints l ≡ none → after_inflight.name ≡ ""
    find_fit-none h = ground (arith, find_fit-after, eq_iff after_inflight.name "")

    no_best-name : after_inflight ≡ no_best → (after_inflight.name == "") ≡ true
    no_best-name e = rw e refl

    pub find_fit_sound :
        (name : String) (inflight : Bool)
        → UniqueKeys l.nodes
        → UniqueKeys l.inflight
        → find_fit demand constraints l ≡ some (name, inflight)
        → (n : NodeEntry) × (slack : ℤ) × (lookup name (if inflight then l.inflight else l.nodes)
            ≡ some n)
          × IsEligible demand constraints n slack
    find_fit_sound name inflight un ui h =
        let (named, en, ei) = find_fit-some name inflight h in
        elim (Chosen-best un ui) [
          | inl nothing ↦ absurd (ground (arith, no_best-name nothing))
          | inr (n, (found, el)) ↦ (n, after_inflight.slack, rw (en, ei) at found, el)
        ]

    after-le :
        (other : String) (m : NodeEntry) (t : ℤ)
        → (lookup other l.nodes ≡ some m) ⊎ (lookup other l.inflight ≡ some m)
        → IsEligible demand constraints m t
        → after_inflight.slack ≤ℤ t
    after-le other m t (inl e) el = omega (
      arith,
      check_all-least demand constraints false l.nodes no_best other m t e el,
      check_all-le demand constraints true l.inflight after_nodes,
    )
    after-le other m t (inr e) el =
        check_all-least demand constraints true l.inflight after_nodes other m t e el

    pub Chosen-slack :
        (name : String) (inflight : Bool) (n : NodeEntry) (slack : ℤ)
        → UniqueKeys l.nodes
        → UniqueKeys l.inflight
        → find_fit demand constraints l ≡ some (name, inflight)
        → Chosen name inflight n slack
        → after_inflight.slack ≡ slack
    Chosen-slack name inflight n slack un ui h (found, el) =
        let (named, en, ei) = find_fit-some name inflight h in
        elim (Chosen-best un ui) [
          | inl nothing ↦ absurd (ground (arith, no_best-name nothing))
          | inr (n', (found', el')) ↦
              let f : lookup name (if inflight then l.inflight else l.nodes) ≡ some n' =
                rw (en, ei) at found' in
              let same : n' ≡ n = ground arith in
              let fits : slack_loop n demand (pos 0) ≡ some after_inflight.slack =
                subst (λ x. slack_loop x demand (pos 0) ≡ some after_inflight.slack) same
                  el'.fits in
              ground (arith, fits, el.fits)
        ]

    -- BestFit: no eligible node, existing or in-flight, has less slack than the one returned.
    pub find_fit_least :
        (name : String) (inflight : Bool) (n : NodeEntry) (slack : ℤ)
        → UniqueKeys l.nodes
        → UniqueKeys l.inflight
        → find_fit demand constraints l ≡ some (name, inflight)
        → Chosen name inflight n slack
        → (other : String) (m : NodeEntry) (t : ℤ)
        → (lookup other l.nodes ≡ some m) ⊎ (lookup other l.inflight ≡ some m)
        → IsEligible demand constraints m t
        → slack ≤ℤ t
    find_fit_least name inflight n slack un ui h chosen other m t e el =
        rw (Chosen-slack name inflight n slack un ui h chosen) at (after-le other m t e el)

    after_nodes-inflight : UniqueKeys l.nodes → after_nodes.inflight ≡ false
    after_nodes-inflight un = elim (check_all-cases demand constraints false l.nodes no_best un) [
      | inl nothing ↦ rw nothing refl
      | inr (name, n, s, found, el, e) ↦ rw e refl
    ]

    -- An in-flight node is returned only if it has less slack than every eligible existing node.
    pub find_fit_prefers_existing :
        (name : String) (n : NodeEntry) (slack : ℤ)
        → UniqueKeys l.nodes
        → UniqueKeys l.inflight
        → find_fit demand constraints l ≡ some (name, true)
        → Chosen name true n slack
        → (other : String) (m : NodeEntry) (t : ℤ) → lookup other l.nodes ≡ some m
        → IsEligible demand constraints m t
        → slack <ℤ t
    find_fit_prefers_existing name n slack un ui h chosen other m t e el =
        let (named, en, ei) = find_fit-some name true h in
        let least : after_nodes.slack ≤ℤ t =
          check_all-least demand constraints false l.nodes no_best other m t e el in
        let slack_eq : after_inflight.slack ≡ slack =
          Chosen-slack name true n slack un ui h chosen in
        elim (check_all_strict l.inflight after_nodes) [
          | inl same ↦
              absurd (ground (arith, after_nodes-inflight un, ap (λ (b : Best). b.inflight) same))
          | inr less ↦ let before : after_inflight.slack <ℤ t = omega arith in rw slack_eq at before
        ]

    -- `FindFit` finds a node if some node is eligible and its slack is not the largest int64, where
    -- no node has the empty name.
    pub find_fit_complete :
        (other : String) (m : NodeEntry) (t : ℤ)
        → UniqueKeys l.nodes
        → UniqueKeys l.inflight
        → lookup "" l.nodes ≡ none
        → lookup "" l.inflight ≡ none
        → (lookup other l.nodes ≡ some m) ⊎ (lookup other l.inflight ≡ some m)
        → IsEligible demand constraints m t
        → t <ℤ max_int64
        → (name : String) × (inflight : Bool) × (find_fit demand constraints l
            ≡ some (name, inflight))
    find_fit_complete other m t un ui nn ni e el less =
        elim (Bool-cases (after_inflight.name == "")) [
          | inr named ↦
              (after_inflight.name, after_inflight.inflight, ground (arith, find_fit-after))
          | inl unnamed ↦
              let empty_name : after_inflight.name ≡ "" = (eq_iff _ _).0 unnamed in
              elim (Chosen-best un ui) [
                | inl nothing ↦ absurd (omega (arith, rw nothing at (after-le other m t e el)))
                | inr (n, (found, _)) ↦ absurd (no_empty_name n (rw empty_name at found))
              ]
        ]
      where
        no_empty_name :
            (n : NodeEntry)
            → lookup "" (if after_inflight.inflight then l.inflight else l.nodes) ≡ some n
            → ⊥
        no_empty_name n found = ground arith

  -- `FindFitExisting` is `FindFit` on the ledger without its in-flight nodes.
  check_existing-check :
      (e : String × NodeEntry) (b : Best)
      → b.inflight ≡ false
      → (check_existing demand constraints e (b.name, b.slack)
          ≡ ((check demand constraints false e b).name, (check demand constraints false e b).slack))
        × ((check demand constraints false e b).inflight ≡ false)
  unfolding check_existing check
  check_existing-check (name, n) b h = ground arith

  check_all_existing-check_all :
      (d : Dict NodeEntry) (b : Best)
      → b.inflight ≡ false
      → check_all_existing demand constraints d (b.name, b.slack) ≡ (
        (check_all demand constraints false d b).name,
        (check_all demand constraints false d b).slack,
      )
  unfolding check_all_existing check_all
  check_all_existing-check_all [] b h = refl
  check_all_existing-check_all (e ∷ d) b h =
      ap (check_all_existing demand constraints d) (check_existing-check e b h).0
      ∙ check_all_existing-check_all d (check demand constraints false e b)
          (check_existing-check e b h).1

  pub find_fit_existing-eq :
      (l : Ledger)
      → find_fit_existing demand constraints l
        ≡ name_of (find_fit demand constraints (clear_inflight l))
  unfolding find_fit_existing find_fit clear_inflight
  find_fit_existing-eq l = ground (arith, check_all_existing-check_all l.nodes no_best refl)
