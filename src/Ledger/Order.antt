-- ===== src/Ledger/Order.antt =====
-- `FindFit` of internal/ledger/ledger.go and the orders in which Go ranges over the maps.
use mathlib.Core.List.{Permᴰ}
use mathlib.Core.List.Permᴰ
use mathlib.Core.Path.{subst}
use kompakt.Prelude.{
  String, ◌==◌, ◌≡◌, refl, sym, ap, ◌∙◌, ◌⊎◌, inl, inr, Bool, true, false, Option, none, some,
  arith, if◌then◌else◌,
}
use kompakt.Int.{ℤ, pos, ◌≤ℤ◌, ◌<ℤ◌, eq_of_parts, max_int64}
use kompakt.Dict.{Dict, lookup}
use kompakt.Ledger.{NodeEntry, Ledger}
use kompakt.Ledger.WellFormed.{IsWellFormed}
use kompakt.Ledger.Fit.{PodSchedulingConstraints, Best, no_best, find_fit}
use kompakt.Ledger.Slack.{slack_loop-perm, check_all-IsBelow}
use kompakt.Ledger.BestFit.{IsEligible}
use kompakt.Ledger.Choice.{
  Chosen, Chosen-slack, find_fit-some, find_fit_complete, find_fit_sound, find_fit_least,
  find_fit_prefers_existing,
}

-- Two lists hold the same map.
abbrev pub SameMap : Dict NodeEntry → Dict NodeEntry → Type 0
SameMap d d' = (k : String) → lookup k d ≡ lookup k d'

clash : (false ≡ true) → ⊥
clash e = cc

module _ (demand : Dict ℤ) (constraints : Option PodSchedulingConstraints) (l : Ledger) where
  find_fit-below :
      (name : String) (inflight : Bool) (n : NodeEntry) (slack : ℤ)
      → IsWellFormed l
      → find_fit demand constraints l ≡ some (name, inflight)
      → Chosen demand constraints l name inflight n slack
      → slack <ℤ max_int64
  find_fit-below name inflight n slack w h chosen =
      let (named, _, _) = find_fit-some demand constraints l name inflight h in
      let same =
        Chosen-slack demand constraints l name inflight n slack w.nodes w.inflight h chosen in
      elim (check_all-IsBelow demand constraints true l.inflight _
        (check_all-IsBelow demand constraints false l.nodes no_best (inr refl))) [
          | inl less ↦ rw same at less
          | inr nothing ↦ absurd (clash (sym named ∙ ap (λ (b : Best). b.name == "") nothing))
        ]

-- The two answers agree but for the name: both find nothing, or both find a node in the same map,
-- and the nodes have the same slack.
abbrev pub SameChoice :
    Dict ℤ
    → Option PodSchedulingConstraints
    → Ledger
    → Option (String × Bool)
    → Ledger
    → Option (String × Bool)
    → Type 0
SameChoice demand constraints l none l' none = Unit
SameChoice demand constraints l (some _) l' none = ⊥
SameChoice demand constraints l none l' (some _) = ⊥
SameChoice demand constraints l (some (name, inflight)) l' (some (name', inflight')) =
    (inflight ≡ inflight')
    × ((n : NodeEntry) × (n' : NodeEntry) × (slack : ℤ) × Chosen demand constraints l name inflight
          n slack
        × Chosen demand constraints l' name' inflight' n' slack)

module _ (constraints : Option PodSchedulingConstraints) where
  -- What is eligible in the one order is so in the other.
  IsEligible-perm :
      {d d' : Dict ℤ} (n : NodeEntry) (s : ℤ)
      → Permᴰ d d'
      → IsEligible d constraints n s
      → IsEligible d' constraints n s
  IsEligible-perm n s p el = record {
    matches = el.matches;
    fits = sym (slack_loop-perm n p (pos 0)) ∙ el.fits;
  }

  move :
      (l l' : Ledger)
      → SameMap l.nodes l'.nodes
      → SameMap l.inflight l'.inflight
      → (name : String) (inflight : Bool) (n : NodeEntry)
      → lookup name (if inflight then l.inflight else l.nodes) ≡ some n
      → lookup name (if inflight then l'.inflight else l'.nodes) ≡ some n
  move l l' sn si name true n h = sym (si name) ∙ h
  move l l' sn si name false n h = sym (sn name) ∙ h

  either_map :
      (l : Ledger) (name : String) (inflight : Bool) (n : NodeEntry)
      → lookup name (if inflight then l.inflight else l.nodes) ≡ some n
      → (lookup name l.nodes ≡ some n) ⊎ (lookup name l.inflight ≡ some n)
  either_map l name true n h = inr h
  either_map l name false n h = inl h

  module _ (d d' : Dict ℤ) (l l' : Ledger) (w : IsWellFormed l) (w' : IsWellFormed l')
      (p : Permᴰ d d') (q : Permᴰ d' d) (sn : SameMap l.nodes l'.nodes)
      (si : SameMap l.inflight l'.inflight) where
    -- The node that is found in one order bounds the slack of that found in the other.
    found-le :
        (name name' : String) (b b' : Bool) (n n' : NodeEntry) (s s' : ℤ)
        → find_fit d constraints l ≡ some (name, b)
        → Chosen d constraints l name b n s
        → Chosen d' constraints l' name' b' n' s'
        → s ≤ℤ s'
    found-le name name' b b' n n' s s' h chosen (found, el) =
        find_fit_least d constraints l name b n s w.nodes w.inflight h chosen name' n' s'
          (either_map l name' b' n'
            (move l' l (λ k. sym (sn k)) (λ k. sym (si k)) name' b' n' found))
          (IsEligible-perm n' s' q el)

    -- A node is found in the other order too.
    also_found :
        (name : String) (b : Bool)
        → lookup "" l.nodes ≡ none
        → lookup "" l.inflight ≡ none
        → find_fit d constraints l ≡ some (name, b)
        → (name' : String) × (b' : Bool) × (find_fit d' constraints l' ≡ some (name', b'))
    also_found name b nn ni h =
        let (n, s, found, el) = find_fit_sound d constraints l name b w.nodes w.inflight h in
        find_fit_complete d' constraints l' name n s w'.nodes w'.inflight (sym (sn "") ∙ nn)
          (sym (si "") ∙ ni) (either_map l' name b n (move l l' sn si name b n found))
          (IsEligible-perm n s p el) (find_fit-below d constraints l name b n s w h (found, el))

    -- An in-flight node is found in one order only if none of the existing ones is found in the other.
    inflight-strict :
        (name name' : String) (n n' : NodeEntry) (s s' : ℤ)
        → find_fit d constraints l ≡ some (name, true)
        → Chosen d constraints l name true n s
        → Chosen d' constraints l' name' false n' s'
        → s <ℤ s'
    inflight-strict name name' n n' s s' h chosen (found, el) =
        find_fit_prefers_existing d constraints l name n s w.nodes w.inflight h chosen name' n' s'
          (sn name' ∙ found) (IsEligible-perm n' s' q el)

module _ (constraints : Option PodSchedulingConstraints) (d d' : Dict ℤ) (l l' : Ledger)
    (w : IsWellFormed l) (w' : IsWellFormed l') (p : Permᴰ d d') (sn : SameMap l.nodes l'.nodes)
    (si : SameMap l.inflight l'.inflight) where
  q : Permᴰ d' d
  q = Permᴰ.symm p

  sn' : SameMap l'.nodes l.nodes
  sn' k = sym (sn k)

  si' : SameMap l'.inflight l.inflight
  si' k = sym (si k)

  flags :
      (name name' : String) (b b' : Bool) (n n' : NodeEntry) (s : ℤ)
      → find_fit d constraints l ≡ some (name, b)
      → find_fit d' constraints l' ≡ some (name', b')
      → Chosen d constraints l name b n s
      → Chosen d' constraints l' name' b' n' s
      → b ≡ b'
  flags name name' true true n n' s h h' ch ch' = refl
  flags name name' false false n n' s h h' ch ch' = refl
  flags name name' true false n n' s h h' ch ch' = absurd (
      omega
        (arith, inflight-strict constraints d d' l l' w w' p q sn si name name' n n' s s h ch ch'))
  flags name name' false true n n' s h h' ch ch' = absurd (
      omega (
        arith,
        inflight-strict constraints d' d l' l w' w q p sn' si' name' name n' n s s h' ch' ch,
      ))

  -- Go may range over the ledger's maps and over the demand in any order. In each order `FindFit`
  -- finds a node, or in none, and always in the same of the two maps and with the same slack; only among
  -- nodes of equal slack in one map does the order choose. No node has the empty name.
  pub find_fit-SameChoice :
      lookup "" l.nodes ≡ none
      → lookup "" l.inflight ≡ none
      → SameChoice d constraints l (find_fit d constraints l) l' (find_fit d' constraints l')
  find_fit-SameChoice nn ni = go (find_fit d constraints l) (find_fit d' constraints l') refl refl
    where
      go :
          (o o' : Option (String × Bool))
          → find_fit d constraints l ≡ o
          → find_fit d' constraints l' ≡ o'
          → SameChoice d constraints l o l' o'
      go none none h h' = tt
      go (some (name, b)) none h h' =
          let (k, f, e) = also_found constraints d d' l l' w w' p q sn si name b nn ni h in
          absurd (cc (sym h' ∙ e))
      go none (some (name, b)) h h' =
          let (k, f, e) =
            also_found constraints d' d l' l w' w q p sn' si' name b (sn' "" ∙ nn) (si' "" ∙ ni)
              h' in
          absurd (cc (sym h ∙ e))
      go (some (name, b)) (some (name', b')) h h' =
          let (n, s, found, el) = find_fit_sound d constraints l name b w.nodes w.inflight h in
          let ch : Chosen d constraints l name b n s = (found, el) in
          let (n', s', found', el') =
            find_fit_sound d' constraints l' name' b' w'.nodes w'.inflight h' in
          let le =
            found-le constraints d d' l l' w w' p q sn si name name' b b' n n' s s' h ch
              (found', el') in
          let ge =
            found-le constraints d' d l' l w' w q p sn' si' name' name b' b n' n s' s h'
              (found', el') ch in
          let same : s' ≡ s = eq_of_parts s' s (omega arith) in
          let here = subst (λ t. Chosen d' constraints l' name' b' n' t) same (found', el') in
          (
            flags name name' b b' n n' s h h' ch here,
            (n, n', s, ch, (found', IsEligible-perm constraints n' s q here.1)),
          )
