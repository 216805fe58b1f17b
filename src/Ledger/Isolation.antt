-- ===== src/Ledger/Isolation.antt =====
-- internal/ledger/ledger.go: `ClearInflightByPrefix` and `HasInflightSignal`, for entries whose
-- names are those of a profile and a node with a slash between.
use kompakt.Prelude.{
  String, ◌≡◌, ◌≢◌, refl, sym, ◌∙◌, Bool, true, false, ◌&&◌, none, [], ◌∷◌, any, is_empty, arith,
  Bool-cases, inl, inr, if◌then◌else◌,
}
use kompakt.Text.{◌+++◌, has_prefix, has_prefix-append, slash_free, prefix_unique}
use kompakt.Dict.{Dict, lookup, erase_if}
use kompakt.Dict.Laws.{lookup-erase_if}
use kompakt.Ledger.{NodeEntry, Ledger, clear_inflight_by_prefix, has_inflight_signal}

-- The names of in-flight entries: the profile's, a slash, and the node's.
abbrev pub key_prefix : String → String
key_prefix profile = profile +++ "/"

signals : String → Dict NodeEntry → Bool
signals prefix d = any (λ e. has_prefix e.0 prefix && is_empty e.1.allocatable) d

signals-erase_if :
    (p q : String) (d : Dict NodeEntry)
    → ((name : String) → has_prefix name p ≡ true → has_prefix name q ≡ false)
    → signals q (erase_if (λ name. has_prefix name p) d) ≡ signals q d
unfolding signals erase_if
signals-erase_if p q [] h = refl
signals-erase_if p q ((k, n) ∷ d) h = ground (arith, h k, signals-erase_if p q d h)

signals-erase_if_self :
    (p : String) (d : Dict NodeEntry) → signals p (erase_if (λ name. has_prefix name p) d) ≡ false
unfolding signals erase_if
signals-erase_if_self p [] = refl
signals-erase_if_self p ((k, n) ∷ d) = ground (arith, signals-erase_if_self p d)

-- After a profile has cleared its entries it has no signal of unknown capacity, and an in-flight
-- entry is left exactly if its name does not begin with the profile's prefix.
clear_inflight_by_prefix_exact :
    (prefix name : String) (l : Ledger)
    → (has_inflight_signal prefix (clear_inflight_by_prefix prefix l) ≡ false)
      × (lookup name (clear_inflight_by_prefix prefix l).inflight
          ≡ (if has_prefix name prefix then none else lookup name l.inflight))
      × ((clear_inflight_by_prefix prefix l).nodes ≡ l.nodes)
unfolding clear_inflight_by_prefix has_inflight_signal
clear_inflight_by_prefix_exact prefix name l = (
  unfold signals in signals-erase_if_self prefix l.inflight,
  lookup-erase_if (λ j. has_prefix j prefix) name l.inflight,
  refl,
)

other_prefix :
    (p q : String)
    → p ≢ q
    → slash_free p ≡ true
    → slash_free q ≡ true
    → (name : String) → has_prefix name (key_prefix p) ≡ true
    → has_prefix name (key_prefix q) ≡ false
other_prefix p q ne sp sq name h = elim (Bool-cases (has_prefix name (key_prefix q))) [
  | inl both ↦ absurd (ne (prefix_unique name p q sp sq h both))
  | inr other ↦ other
]

-- Two profiles whose names hold no slash, as the names of Kubernetes objects do: when the one clears
-- its in-flight entries, the other keeps its signal and each of its entries.
pub profile_isolation :
    (p q node : String) (l : Ledger)
    → p ≢ q
    → slash_free p ≡ true
    → slash_free q ≡ true
    → let l' = clear_inflight_by_prefix (key_prefix p) l in
      (has_inflight_signal (key_prefix q) l' ≡ has_inflight_signal (key_prefix q) l)
      × (lookup (key_prefix q +++ node) l'.inflight ≡ lookup (key_prefix q +++ node) l.inflight)
unfolding clear_inflight_by_prefix has_inflight_signal
profile_isolation p q node l ne sp sq = (
  unfold signals in
      signals-erase_if (key_prefix p) (key_prefix q) l.inflight (other_prefix p q ne sp sq),
  lookup-erase_if (λ j. has_prefix j (key_prefix p)) (key_prefix q +++ node) l.inflight
      ∙ ground (
        arith,
        other_prefix q p (λ e. ne (sym e)) sq sp (key_prefix q +++ node)
            (has_prefix-append (key_prefix q) node),
      ),
)
