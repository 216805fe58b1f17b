-- ===== src/Ledger/Slack.antt =====
-- The loops of `FindFit` of internal/ledger/ledger.go: the slack of one node, and that of the best so
-- far.
use mathlib.Core.List.{Permᴰ}
use mathlib.Core.Path.{subst}
use kompakt.Prelude.{
  String, ◌≡◌, refl, sym, ap, ◌∙◌, ◌⊎◌, inl, inr, Bool, Option, none, [], ◌∷◌, Bool-cases,
  Option-cases, arith, if◌then◌else◌,
}
use kompakt.Int.{ℤ, pos, ◌<ℤ◌, add64, sub64, ltb_ℤ, max_int64}
use kompakt.Int.Wrap.{add64_assoc, add64_comm}
use kompakt.Dict.{Dict}
use kompakt.Ledger.{NodeEntry, available}
use kompakt.Ledger.Fit.{
  PodSchedulingConstraints, node_matches_constraints, slack_loop, Best, no_best, check, check_all,
}
use kompakt.Ledger.BestFit.{check-le}

add64_swap : (t a b : ℤ) → add64 (add64 t a) b ≡ add64 (add64 t b) a
add64_swap t a b = add64_assoc t a b ∙ ap (add64 t) (add64_comm a b) ∙ sym (add64_assoc t b a)

-- The rest of the loop of `FindFit` over a demand, behind one entry.
slack_step :
    (n : NodeEntry) (e : String × ℤ) (d : Dict ℤ) (t : ℤ)
    → slack_loop n (e ∷ d) t ≡ (
        if ltb_ℤ (available n e.0) e.1
        then none
        else slack_loop n d (add64 t (sub64 (available n e.0) e.1)))
unfolding slack_loop
slack_step n e d t = refl

slack_loop-swap :
    (n : NodeEntry) (e f : String × ℤ) (d : Dict ℤ) (t : ℤ)
    → slack_loop n (e ∷ f ∷ d) t ≡ slack_loop n (f ∷ e ∷ d) t
slack_loop-swap n e f d t =
    let se = sub64 (available n e.0) e.1 in
    let sf = sub64 (available n f.0) f.1 in
    ground (
      arith,
      slack_step n e (f ∷ d) t,
      slack_step n f d (add64 t se),
      slack_step n f (e ∷ d) t,
      slack_step n e d (add64 t sf),
      ap (slack_loop n d) (add64_swap t se sf),
    )

-- A demand's slack does not depend on the order of its entries, wrap-around or not.
pub slack_loop-perm :
    (n : NodeEntry) {d d' : Dict ℤ} → Permᴰ d d' → (t : ℤ) → slack_loop n d t ≡ slack_loop n d' t
slack_loop-perm n Permᴰ.nil t = refl
slack_loop-perm n (Permᴰ.cons {a} {b} {l₁ = l} {l₂ = l'} same p) t =
    let rest = slack_loop-perm n p (add64 t (sub64 (available n b.0) b.1)) in
    ap (λ e. slack_loop n (e ∷ l) t) same
    ∙ slack_step n b l t
    ∙ ap (λ o. if ltb_ℤ (available n b.0) b.1 then none else o) rest
    ∙ sym (slack_step n b l' t)
slack_loop-perm n (Permᴰ.swap {a} {b} {a'} {b'} {l} e f) t =
    slack_loop-swap n a b l t
    ∙ ap (λ x. slack_loop n (x ∷ a ∷ l) t) f
    ∙ ap (λ x. slack_loop n (a' ∷ x ∷ l) t) e
slack_loop-perm n (Permᴰ.trans p q) t = slack_loop-perm n p t ∙ slack_loop-perm n q t

-- The best node so far is none, or has less slack than the largest int64.
abbrev pub IsBelow : Best → Type 0
IsBelow b = (b.slack <ℤ max_int64) ⊎ (b ≡ no_best)

module _ (demand : Dict ℤ) (constraints : Option PodSchedulingConstraints) (inflight : Bool) where
  check-no_best :
      (name : String) (n : NodeEntry)
      → IsBelow (check demand constraints inflight (name, n) no_best)
  unfolding check
  check-no_best name n = elim (Bool-cases (node_matches_constraints n constraints)) [
    | inr m ↦ inr (ground arith)
    | inl m ↦ elim (Option-cases (slack_loop n demand (pos 0))) [
      | inl none_fits ↦ inr (ground arith)
      | inr (s, fits) ↦ elim (Bool-cases (ltb_ℤ s max_int64)) [
        | inl better ↦ inl (ground arith)
        | inr worse ↦ inr (ground arith)
      ]
    ]
  ]

  pub check_all-IsBelow :
      (d : Dict NodeEntry) (b : Best)
      → IsBelow b
      → IsBelow (check_all demand constraints inflight d b)
  unfolding check_all
  check_all-IsBelow [] b h = h
  check_all-IsBelow ((name, n) ∷ d) b (inl less) =
      check_all-IsBelow d (check demand constraints inflight (name, n) b)
        (inl (omega (arith, check-le demand constraints inflight (name, n) b)))
  check_all-IsBelow ((name, n) ∷ d) b (inr e) =
      check_all-IsBelow d (check demand constraints inflight (name, n) b) (
        subst (λ x. IsBelow (check demand constraints inflight (name, n) x)) (sym e)
          (check-no_best name n))
