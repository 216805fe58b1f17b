-- ===== src/Ledger/BestFit.antt =====
-- The loops of `FindFit` and `FindFitExisting` of internal/ledger/ledger.go: what the best node so
-- far is after a range over one map.
use kompakt.Prelude.{
  String, ◌==◌, eq_iff, eq_refl, ◌≡◌, refl, ◌∙◌, ◌⊎◌, Bool, true, not, ◌||◌, ◌&&◌, Option, some, [],
  ◌∷◌, arith, Bool-cases, Option-cases, inl, inr,
}
use kompakt.Int.{ℤ, pos, ◌≤ℤ◌, ltb_ℤ, eqb_ℤ}
use kompakt.Dict.{Dict, lookup, missing, UniqueKeys}
use kompakt.Dict.Laws.{missing-eq-lookup}
use kompakt.Ledger.{NodeEntry}
use kompakt.Ledger.Fit.{
  PodSchedulingConstraints, node_matches_constraints, slack_loop, Best, check, check_all,
}

-- A node that the pod may go to, with room for the demand, and its slack.
pub record IsEligible (demand : Dict ℤ) (constraints : Option PodSchedulingConstraints)
    (n : NodeEntry) (slack : ℤ) : Type 0 where
  pub matches : node_matches_constraints n constraints ≡ true
  pub fits : slack_loop n demand (pos 0) ≡ some slack

module _ (demand : Dict ℤ) (constraints : Option PodSchedulingConstraints) (inflight : Bool) where
  -- What one call of `check` does.
  check-cases :
      (name : String) (n : NodeEntry) (best : Best)
      → (check demand constraints inflight (name, n) best ≡ best)
        ⊎ ((slack : ℤ) × IsEligible demand constraints n slack
            × (check demand constraints inflight (name, n) best
                ≡ record { name = name; slack = slack; inflight = inflight }))
  unfolding check
  check-cases name n best = elim (Bool-cases (node_matches_constraints n constraints)) [
    | inl m ↦ elim (Option-cases (slack_loop n demand (pos 0))) [
      | inl none_fits ↦ inl (ground arith)
      | inr (s, fits) ↦
          elim (Bool-cases
            (ltb_ℤ s best.slack || (eqb_ℤ s best.slack && not inflight && best.inflight))) [
              | inl better ↦ inr (s, record { matches = m; fits = fits }, ground arith)
              | inr worse ↦ inl (ground arith)
            ]
    ]
    | inr m ↦ inl (ground arith)
  ]

  pub check-le :
      (e : String × NodeEntry) (best : Best)
      → (check demand constraints inflight e best).slack ≤ℤ best.slack
  unfolding check
  check-le e best = ground arith

  check-le_slack :
      (name : String) (n : NodeEntry) (best : Best) (s : ℤ)
      → IsEligible demand constraints n s
      → (check demand constraints inflight (name, n) best).slack ≤ℤ s
  unfolding check
  check-le_slack name n best s el = ground (arith, el.matches, el.fits)

  pub check_all-le :
      (d : Dict NodeEntry) (best : Best)
      → (check_all demand constraints inflight d best).slack ≤ℤ best.slack
  unfolding check_all
  check_all-le [] best = omega arith
  check_all-le (e ∷ d) best =
      omega (arith, check_all-le d (check demand constraints inflight e best), check-le e best)

  -- The slack that a loop ends with is at most that of each eligible node.
  pub check_all-least :
      (d : Dict NodeEntry) (best : Best) (name : String) (n : NodeEntry) (s : ℤ)
      → lookup name d ≡ some n
      → IsEligible demand constraints n s
      → (check_all demand constraints inflight d best).slack ≤ℤ s
  unfolding check_all lookup
  check_all-least [] best name n s e el = cc
  check_all-least ((k, m) ∷ d) best name n s e el = elim (Bool-cases (k == name)) [
    | inl here ↦
        let same : m ≡ n = ground arith in
        omega (
          arith,
          check_all-le d (check demand constraints inflight (k, m) best),
          check-le_slack k m best s (rw same el),
        )
    | inr there ↦
        check_all-least d (check demand constraints inflight (k, m) best) name n s (ground arith) el
  ]

  abbrev pub FoundIn : Dict NodeEntry → Best → Type 0
  FoundIn d b =
      (name : String) × (n : NodeEntry) × (slack : ℤ) × (lookup name d ≡ some n)
      × IsEligible demand constraints n slack
      × (b ≡ record { name = name; slack = slack; inflight = inflight })

  FoundIn-cons :
      (k : String) (m : NodeEntry) (d : Dict NodeEntry) (b : Best)
      → missing k d ≡ true
      → FoundIn d b
      → FoundIn ((k, m) ∷ d) b
  unfolding lookup
  FoundIn-cons k m d b absent (name, n, s, found, el, e) =
      (name, n, s, ground (arith, eq_iff k name, missing-eq-lookup k d absent), el, e)

  -- A loop ends with what it began with, or with an eligible node of the map.
  pub check_all-cases :
      (d : Dict NodeEntry) (best : Best)
      → UniqueKeys d
      → (check_all demand constraints inflight d best ≡ best)
        ⊎ FoundIn d (check_all demand constraints inflight d best)
  unfolding check_all lookup
  check_all-cases [] best u = inl refl
  check_all-cases ((k, m) ∷ d) best u =
      elim (check_all-cases d (check demand constraints inflight (k, m) best) u.1) [
        | inl kept ↦ elim (check-cases k m best) [
          | inl same ↦ inl (kept ∙ same)
          | inr (s, el, e) ↦ inr (k, m, s, ground (arith, eq_refl k), el, kept ∙ e)
        ]
        | inr found ↦ inr (FoundIn-cons k m d _ u.0 found)
      ]
