-- ===== src/Rules/Accounts.antt =====
-- internal/rules: the reservations that the two rules make.
use mathlib.Core.Path.{subst}
use kompakt.Prelude.{
  ℕ, zero, suc, ◌+◌, ◌≤◌, String, ◌==◌, eq_iff, ◌≡◌, refl, sym, ap, ◌∙◌, ◌⊎◌, inl, inr, Option,
  none, some, Bool-cases, Option-cases, is_empty, arith,
}
use kompakt.Int.{ℤ, pos}
use kompakt.Dict.{Dict, lookup, get_or, UniqueKeys}
use kompakt.Dict.Laws.{lookup-All}
use kompakt.Kube.{Quantity, Pod}
use kompakt.Api.{PackingProfile}
use kompakt.Ledger.{NodeEntry, Ledger, ok, reserve, find_entry, store_entry, add_demand}
use kompakt.Ledger.Reserving.{
  plus_demand, get_or-add_demand, find_entry-store_entry, find_entry-store_entry_ne, reserve-cases,
}
use kompakt.Ledger.Fit.{find_fit, find_fit_existing}
use kompakt.Rules.{
  Rule, evaluate_workload_packing, evaluate_node_ready, registry, demand_of, extract_constraints,
}

-- A row of that many reservations of a demand, each of which succeeds.
pub data Reserves (demand : Dict ℤ) : ℕ → Ledger → Ledger → Type 0 where
  stays : {l : Ledger} → Reserves demand 0 l l
  takes :
      {k : ℕ} {l l'' : Ledger} (name : String)
      → (reserve name demand l).0 ≡ ok
      → Reserves demand k (reserve name demand l).1 l''
      → Reserves demand (suc k) l l''

-- That many times the demand on top of what is reserved, as int64 adds it.
abbrev pub plus_times : ℕ → ℤ → Option ℤ → ℤ
plus_times zero a o = a
plus_times (suc k) a o = plus_times k (plus_demand a o) o

-- An entry with some of the reservations of a row on top, and nothing else changed.
pub record HasMore (demand : Dict ℤ) (k : ℕ) (n n' : NodeEntry) : Type 0 where
  pub times : ℕ
  pub bounded : times ≤ k
  pub allocatable : n'.allocatable ≡ n.allocatable
  pub used : n'.used ≡ n.used
  pub labels : n'.labels ≡ n.labels
  pub taints : n'.taints ≡ n.taints
  pub reserved :
      (res : String)
      → get_or (pos 0) res n'.reserved
        ≡ plus_times times (get_or (pos 0) res n.reserved) (lookup res demand)

module _ (demand : Dict ℤ) where
  -- A row that makes at most one reservation.
  abbrev pub AtMostOne : Ledger → Ledger → Type 0
  AtMostOne l l' = (k : ℕ) × (k ≤ 1) × Reserves demand k l l'

  reserve-AtMostOne : (name : String) (l : Ledger) → AtMostOne l (reserve name demand l).1
  reserve-AtMostOne name l = elim (reserve-cases name demand l) [
    | inl same ↦ (0, omega arith, subst (λ r. Reserves demand 0 l r.1) (sym same) stays)
    | inr (n, e, room, done) ↦ (1, omega arith, takes name (ap (λ r. r.0) done) stays)
  ]

  abbrev with_more : NodeEntry → NodeEntry
  with_more n = record n { reserved = add_demand n.reserved demand }

  -- An entry after one reservation.
  reserve-entry :
      (l : Ledger) (other name : String) (n : NodeEntry)
      → (reserve other demand l).0 ≡ ok
      → find_entry name l ≡ some n
      → (find_entry name (reserve other demand l).1 ≡ some n)
        ⊎ (find_entry name (reserve other demand l).1 ≡ some (with_more n))
  reserve-entry l other name n fine e = elim (reserve-cases other demand l) [
    | inl refused ↦ absurd (ground (arith, fine, refused))
    | inr (m, em, room, done) ↦ elim (Bool-cases (other == name)) [
      | inr ne ↦ inl (
          ap (λ r. find_entry name r.1) done
          ∙ find_entry-store_entry_ne other (with_more m) l name ne
          ∙ e)
      | inl same ↦
          let named = (eq_iff other name).0 same in
          let whose : some m ≡ some n = sym em ∙ ap (λ x. find_entry x l) named ∙ e in
          inr (
            ap (λ r. find_entry name r.1) done
            ∙ ap (λ x. find_entry x (store_entry other (with_more m) l)) (sym named)
            ∙ find_entry-store_entry other (with_more m) l
            ∙ ap (λ (o : Option NodeEntry). elim o [ none ↦ none | some x ↦ some (with_more x) ])
                whose)
    ]
  ]

  HasMore-later : (k : ℕ) (n n' : NodeEntry) → HasMore demand k n n' → HasMore demand (suc k) n n'
  HasMore-later k n n' h =
      let b = h.bounded in
      record {
        times = h.times;
        bounded = omega (arith, b);
        allocatable = h.allocatable;
        used = h.used;
        labels = h.labels;
        taints = h.taints;
        reserved = h.reserved;
      }

  HasMore-more :
      UniqueKeys demand
      → (k : ℕ) (n n' : NodeEntry) → HasMore demand k (with_more n) n'
      → HasMore demand (suc k) n n'
  HasMore-more u k n n' h =
      let b = h.bounded in
      record {
        times = suc h.times;
        bounded = omega (arith, b);
        allocatable = h.allocatable;
        used = h.used;
        labels = h.labels;
        taints = h.taints;
        reserved = λ res.
            h.reserved res
            ∙ ap (λ a. plus_times h.times a (lookup res demand))
                (get_or-add_demand res demand n.reserved u);
      }

  -- After a row of reservations each entry is there, with some of them on top.
  pub HasMore-Reserves :
      UniqueKeys demand
      → (k : ℕ) (l l' : Ledger) (name : String) (n : NodeEntry) → Reserves demand k l l'
      → find_entry name l ≡ some n
      → (n' : NodeEntry) × (find_entry name l' ≡ some n') × HasMore demand k n n'
  HasMore-Reserves u k l l' name n stays e = (
    n,
    e,
    record {
      times = 0;
      bounded = omega arith;
      allocatable = refl;
      used = refl;
      labels = refl;
      taints = refl;
      reserved = λ res. refl;
    },
  )
  HasMore-Reserves u (suc k) l l' name n (takes other fine r) e =
      elim (reserve-entry l other name n fine e) [
        | inl as_before ↦
            let (n', found, h) = HasMore-Reserves u k _ l' name n r as_before in
            (n', found, HasMore-later k n n' h)
        | inr more ↦
            let (n', found, h) = HasMore-Reserves u k _ l' name (with_more n) r more in
            (n', found, HasMore-more u k n n' h)
      ]

  -- One row behind another.
  pub Reserves-append :
      (j k : ℕ) (l l' l'' : Ledger)
      → Reserves demand j l l'
      → Reserves demand k l' l''
      → Reserves demand (j + k) l l''
  Reserves-append j k l l' l'' stays r = subst (λ m. Reserves demand m l l'') (omega arith) r
  Reserves-append (suc j) k l l' l'' (takes name fine r) r' =
      subst (λ m. Reserves demand m l l'') (omega arith)
        (takes name fine (Reserves-append j k _ l' l'' r r'))

module _ (milli_value : Quantity → ℤ) where
  -- A rule that makes at most one reservation of the pod's demand.
  abbrev pub IsSparing : Rule milli_value → Type 0
  IsSparing rule =
      (pod : Pod) (profile : PackingProfile) (l : Ledger)
      → AtMostOne (demand_of milli_value pod profile) l (rule pod l profile).1

  same-AtMostOne : (demand : Dict ℤ) (l l' : Ledger) → l' ≡ l → AtMostOne demand l l'
  same-AtMostOne demand l l' e = (0, omega arith, subst (Reserves demand 0 l) (sym e) stays)

  packing-IsSparing : IsSparing (evaluate_workload_packing milli_value)
  unfolding evaluate_workload_packing
  packing-IsSparing pod profile l =
      let demand = demand_of milli_value pod profile in
      elim (Bool-cases (is_empty demand)) [
        | inl none_asked ↦ same-AtMostOne demand l _ (ground arith)
        | inr asked ↦ elim (Option-cases (find_fit_existing demand (extract_constraints pod) l)) [
          | inl e ↦ same-AtMostOne demand l _ (ground arith)
          | inr (name, e) ↦
              subst (AtMostOne demand l) (sym (ground arith)) (reserve-AtMostOne demand name l)
        ]
      ]

  node_ready-IsSparing : IsSparing (evaluate_node_ready milli_value)
  unfolding evaluate_node_ready
  node_ready-IsSparing pod profile l =
      let demand = demand_of milli_value pod profile in
      elim (Bool-cases (is_empty demand)) [
        | inl none_asked ↦ same-AtMostOne demand l _ (ground arith)
        | inr asked ↦ elim (Option-cases (find_fit demand (extract_constraints pod) l)) [
          | inl e ↦ same-AtMostOne demand l _ (ground arith)
          | inr ((name, inflight), e) ↦
              subst (AtMostOne demand l) (sym (ground arith)) (reserve-AtMostOne demand name l)
        ]
      ]

  pub registered-IsSparing :
      (name : String) (rule : Rule milli_value)
      → lookup name (registry milli_value) ≡ some rule
      → IsSparing rule
  registered-IsSparing name rule e =
      lookup-All IsSparing name rule (registry milli_value)
        (packing-IsSparing, (node_ready-IsSparing, tt)) e
