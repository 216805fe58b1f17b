-- ===== src/Controller/Reconcile/Home.antt =====
-- The entry of an existing node, over a row of reservations.
use mathlib.Core.Path.{subst}
use kompakt.Prelude.{
  ℕ, suc, String, eq_iff, ◌≡◌, sym, ap, ◌∙◌, none, some, Option-cases, inl, inr, arith,
}
use kompakt.Int.{ℤ, pos}
use kompakt.Dict.{Dict, get_or, lookup}
use kompakt.Dict.Laws.{lookup-insert}
use kompakt.Ledger.{NodeEntry, Ledger, find_entry, store_entry, reserve}
use kompakt.Ledger.Reserving.{reserve-cases}
use kompakt.Rules.Accounts.{Reserves, stays, takes}
use kompakt.Controller.Sync.Bare.{IsKnown}
use kompakt.Controller.Sync.Lasting.{reserved_of, amount}

-- An existing node, and none in flight of the name.
pub record IsHome (name : String) (l : Ledger) : Type 0 where
  pub known : IsKnown name l
  pub absent : lookup name l.inflight ≡ none

store_entry-IsHome :
    (name other : String) (n : NodeEntry) (l : Ledger)
    → IsHome name l
    → IsHome name (store_entry other n l)
unfolding store_entry
store_entry-IsHome name other n l h = elim (Option-cases (lookup other l.nodes)) [
  | inl e ↦ record {
    known = ground (arith, e, h.known);
    absent =
        ground
          (arith, e, h.known, h.absent, eq_iff other name, lookup-insert other name n l.inflight);
  }
  | inr (m, e) ↦ record {
    known = ground (arith, e, h.known, lookup-insert other name n l.nodes);
    absent = ground (arith, e, h.absent);
  }
]

pub Reserves-IsHome :
    (demand : Dict ℤ) (name : String) (k : ℕ) (l l' : Ledger)
    → Reserves demand k l l'
    → IsHome name l
    → IsHome name l'
Reserves-IsHome demand name k l l' stays h = h
Reserves-IsHome demand name (suc k) l l' (takes other fine r) h =
    Reserves-IsHome demand name k (reserve other demand l).1 l' r
      (elim (reserve-cases other demand l) [
        | inl refused ↦ subst (λ q. IsHome name q.1) (sym refused) h
        | inr (n, _, _, done) ↦
            subst (λ q. IsHome name q.1) (sym done) (store_entry-IsHome name other _ l h)
      ])

find_entry-known :
    (name : String) (l : Ledger) → IsKnown name l → find_entry name l ≡ lookup name l.nodes
unfolding find_entry
find_entry-known name l h = ground (arith, h)

pub amount-entry :
    (name : String) (l : Ledger) (n : NodeEntry) (res : String)
    → IsKnown name l
    → find_entry name l ≡ some n
    → amount name l res ≡ get_or (pos 0) res n.reserved
amount-entry name l n res h e =
    ap (λ o. get_or (pos 0) res (reserved_of o)) (sym (find_entry-known name l h) ∙ e)

pub known-entry :
    (name : String) (l : Ledger) → IsKnown name l → (n : NodeEntry) × (find_entry name l ≡ some n)
known-entry name l h = elim (Option-cases (find_entry name l)) [
  | inl e ↦ absurd (ground (arith, h, e, find_entry-known name l h))
  | inr (n, e) ↦ (n, e)
]
