-- ===== src/Inflight/NotReady/Window.antt =====
-- `(*NotReadyNodeDetector).Detect`: which nodes.
use kompakt.Prelude.{
  ◌^◌, ◌-◌, ◌==◌, ◌≡◌, refl, ap, ◌∙◌, Bool, true, false, not, ◌&&◌, ◌||◌, Option, none, some, List,
  [], ◌∷◌, map, Bool-cases, inl, inr, arith, if◌then◌else◌,
}
use kompakt.Int.{ℤ, pos, negsuc, ◌+ℤ◌, ◌-ℤ◌, ltb_ℤ, sub64, max_int64}
use kompakt.Clock.{time_sub}
use kompakt.Kube.{Quantity, NodeCondition, Node}
use kompakt.Inflight.NotReady.{
  never_ready_threshold, max_not_ready_age, abs_delta, never_ready_loop, is_never_ready,
  inflight_of, detect_loop, detect,
}

-- At most ten seconds apart.
abbrev pub is_near : ℤ → ℤ → Bool
is_near t u = not (ltb_ℤ (u +ℤ pos 10_000_000_000) t) && not (ltb_ℤ (t +ℤ pos 10_000_000_000) u)

-- At least 2^63 nanoseconds before.
abbrev pub is_ages_before : ℤ → ℤ → Bool
is_ages_before t u = not (ltb_ℤ u (t +ℤ pos (2 ^ 63)))

-- The largest and the smallest int64, and what is between.
in_range :
    (d : ℤ)
    → ltb_ℤ max_int64 d ≡ false
    → ltb_ℤ d (negsuc (2 ^ 63 - 1)) ≡ false
    → not (ltb_ℤ never_ready_threshold (abs_delta d)) ≡ (
        (not (ltb_ℤ (pos 10_000_000_000) d) && not (ltb_ℤ d (negsuc 9_999_999_999)))
        || not (ltb_ℤ (negsuc (2 ^ 63 - 1)) d))
unfolding abs_delta sub64 ◌-ℤ◌
in_range (pos d) h k = ground arith
in_range (negsuc d) h k = ground arith

sat_up : (t u : ℤ) → ltb_ℤ (pos 10_000_000_000) (time_sub t u) ≡ ltb_ℤ (u +ℤ pos 10_000_000_000) t
unfolding time_sub ◌-ℤ◌ ◌+ℤ◌
sat_up t u = ground arith

sat_down :
    (t u : ℤ) → ltb_ℤ (time_sub t u) (negsuc 9_999_999_999) ≡ ltb_ℤ (t +ℤ pos 10_000_000_000) u
unfolding time_sub ◌-ℤ◌ ◌+ℤ◌
sat_down t u = ground arith

sat_ages : (t u : ℤ) → ltb_ℤ (negsuc (2 ^ 63 - 1)) (time_sub t u) ≡ ltb_ℤ u (t +ℤ pos (2 ^ 63))
unfolding time_sub ◌-ℤ◌ ◌+ℤ◌
sat_ages t u = ground arith

sat_range :
    (t u : ℤ)
    → (ltb_ℤ max_int64 (time_sub t u) ≡ false)
      × (ltb_ℤ (time_sub t u) (negsuc (2 ^ 63 - 1)) ≡ false)
unfolding time_sub ◌-ℤ◌
sat_range t u = (ground arith, ground arith)

window :
    (t u : ℤ)
    → not (ltb_ℤ never_ready_threshold (abs_delta (time_sub t u)))
      ≡ (is_near t u || is_ages_before t u)
window t u =
    let (below, above) = sat_range t u in
    in_range (time_sub t u) below above ∙ rw (sat_up t u, sat_down t u, sat_ages t u) refl

-- The first condition of the kind `Ready`.
abbrev pub ready_condition : List NodeCondition → Option NodeCondition
ready_condition [] = none
ready_condition (cond ∷ conds) = if cond.kind == "Ready" then some cond else ready_condition conds

-- A node without a `Ready` condition, or whose first one is not true and has been as it is since the
-- node's creation, or since no time that counts.
abbrev pub never_was_ready : Node → Bool
never_was_ready node = elim (ready_condition node.conditions) [
  | none ↦ true
  | some cond ↦
      not (cond.status == "True")
      && (is_near cond.last_transition node.creation
          || is_ages_before cond.last_transition node.creation)
]

-- A node is not older than fifteen minutes.
abbrev pub is_young : ℤ → Node → Bool
is_young now node = not (ltb_ℤ (node.creation +ℤ pos 900_000_000_000) now)

abbrev pub all_that : (Node → Bool) → List Node → List Node
all_that p [] = []
all_that p (node ∷ nodes) = if p node then node ∷ all_that p nodes else all_that p nodes

is_never_ready-eq : (node : Node) → is_never_ready node ≡ never_was_ready node
unfolding is_never_ready never_ready_loop
is_never_ready-eq node = go node.conditions
  where
    go :
        (conds : List NodeCondition)
        → never_ready_loop node.creation conds ≡ (elim (ready_condition conds) [
          | none ↦ true
          | some cond ↦
              not (cond.status == "True")
              && (is_near cond.last_transition node.creation
                  || is_ages_before cond.last_transition node.creation)
        ])
    go [] = refl
    go (cond ∷ conds) = elim (Bool-cases (cond.kind == "Ready")) [
      | inr other ↦ rw other (go conds)
      | inl ready ↦ rw ready (elim (Bool-cases (cond.status == "True")) [
        | inl up ↦ rw up refl
        | inr down ↦ rw down (window cond.last_transition node.creation)
      ])
    ]

is_young-eq :
    (now : ℤ) (node : Node)
    → not (ltb_ℤ max_not_ready_age (time_sub now node.creation)) ≡ is_young now node
unfolding time_sub ◌-ℤ◌ ◌+ℤ◌
is_young-eq now node = ground arith

module _ (milli_value : Quantity → ℤ) (now : ℤ) where
  abbrev pub is_arriving : Node → Bool
  is_arriving node = never_was_ready node && is_young now node

  turn :
      (node : Node) (nodes : List Node)
      → detect_loop milli_value now (node ∷ nodes) ≡ (
          if is_arriving node
          then inflight_of milli_value now node ∷ detect_loop milli_value now nodes
          else detect_loop milli_value now nodes)
  unfolding detect_loop
  turn node nodes = ground (arith, is_never_ready-eq node, is_young-eq now node)

  -- `Detect` of the nodes that are not ready gives exactly the listed nodes that never were ready and are
  -- at most fifteen minutes old, in their order: nodes without a `Ready` condition, and nodes whose
  -- first one is not true and last changed at most ten seconds before or after the node's creation.
  -- One more kind passes: where the change is dated 2^63 nanoseconds or more before the creation, as
  -- a change with no date is, since the difference then has no absolute value in an int64.
  pub detect-exact :
      (nodes : List Node)
      → detect milli_value now (some nodes)
        ≡ map (inflight_of milli_value now) (all_that is_arriving nodes)
  unfolding detect detect_loop
  detect-exact [] = refl
  detect-exact (node ∷ nodes) =
      let ih = detect-exact nodes in
      turn node nodes ∙ elim (Bool-cases (is_arriving node)) [
        | inl kept ↦ rw kept (ap (λ ns. inflight_of milli_value now node ∷ ns) ih)
        | inr skipped ↦ rw skipped ih
      ]
