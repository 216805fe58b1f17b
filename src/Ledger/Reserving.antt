-- ===== src/Ledger/Reserving.antt =====
-- `Reserve` of internal/ledger/ledger.go: what a reservation takes, and when it is refused.
use kompakt.Prelude.{
  String, ◌==◌, eq_iff, eq_refl, ◌≡◌, refl, ap, ◌∙◌, ◌⊎◌, true, false, Option, none, some, [], ◌∷◌,
  All, arith, Bool-cases, Option-cases, inl, inr, if◌then◌else◌,
}
use kompakt.Int.{ℤ, pos, ◌≤ℤ◌, ◌<ℤ◌, ◌-ℤ◌, add64, ltb_ℤ, int_laws}
use kompakt.Int.Wrap.{sub64-add64, sub64_exact, sub64-IsInt64}
use kompakt.Dict.{Dict, lookup, get_or, insert, UniqueKeys}
use kompakt.Dict.Laws.{
  lookup-insert_self, lookup-insert_ne, missing-eq-lookup, get_or-insert, get_or-some, get_or-none,
  All-lookup,
}
use kompakt.Ledger.{
  NodeEntry, Ledger, available, find_entry, store_entry, ok, no_fit, has_room, add_demand, reserve,
}

-- No quantity is negative.
abbrev pub NonNegative : Dict ℤ → Type 0
NonNegative d = All (λ e. pos 0 ≤ℤ e.1) d

pub NonNegative-lookup :
    (res : String) (d : Dict ℤ) (q : ℤ) → NonNegative d → lookup res d ≡ some q → pos 0 ≤ℤ q
unfolding lookup
NonNegative-lookup res [] q h e = cc
NonNegative-lookup res ((j, v) ∷ d) q h e = ground (arith, NonNegative-lookup res d q h.1)

-- What is reserved of a resource after a loop over a demand that lists it, or does not.
abbrev pub plus_demand : ℤ → Option ℤ → ℤ
plus_demand a none = a
plus_demand a (some q) = add64 a q

get_or-add_demand_step :
    (j res : String) (a q : ℤ) (o : Option ℤ)
    → (res ≡ j → o ≡ none)
    → plus_demand (if res == j then add64 a q else a) o
      ≡ plus_demand a (if res == j then some q else o)
get_or-add_demand_step j res a q o h = ground (arith, eq_iff res j)

pub get_or-add_demand :
    (j : String) (d r : Dict ℤ)
    → UniqueKeys d
    → get_or (pos 0) j (add_demand r d) ≡ plus_demand (get_or (pos 0) j r) (lookup j d)
unfolding add_demand lookup
get_or-add_demand j [] r u = refl
get_or-add_demand j ((res, q) ∷ d) r u =
    get_or-add_demand j d (insert res (add64 (get_or (pos 0) res r) q) r) u.1
    ∙ ground (
      arith,
      eq_iff res j,
      get_or-insert (pos 0) res j (add64 (get_or (pos 0) res r) q) r,
      missing-eq-lookup res d u.0,
    )

-- A room test that passes covers each demanded resource.
pub has_room-lookup :
    (n : NodeEntry) (res : String) (d : Dict ℤ) (q : ℤ)
    → has_room n d ≡ true
    → lookup res d ≡ some q
    → q ≤ℤ available n res
unfolding has_room lookup
has_room-lookup n res [] q h e = cc
has_room-lookup n res ((j, v) ∷ d) q h e = ground (arith, eq_iff j res, has_room-lookup n res d q)

-- A room test that fails names a resource that is short.
pub has_room_short :
    (n : NodeEntry) (d : Dict ℤ)
    → UniqueKeys d
    → has_room n d ≡ false
    → (res : String) × (q : ℤ) × (lookup res d ≡ some q) × (available n res <ℤ q)
unfolding has_room lookup
has_room_short n [] u h = absurd (ground arith)
has_room_short n ((j, v) ∷ d) u h = elim (Bool-cases (ltb_ℤ (available n j) v)) [
  | inl short ↦ (j, v, ground (arith, eq_refl j), ground arith)
  | inr wide ↦
      let (res, q, e, s) = has_room_short n d u.1 (ground arith) in
      (res, q, ground (arith, eq_iff j res, missing-eq-lookup j d u.0), s)
]

-- Every resource has what is demanded of it less than before, no demanded resource is left below
-- zero, and nothing else of the node changed.
pub record IsReserved (n : NodeEntry) (demand : Dict ℤ) (n' : NodeEntry) : Type 0 where
  pub allocatable : n'.allocatable ≡ n.allocatable
  pub used : n'.used ≡ n.used
  pub labels : n'.labels ≡ n.labels
  pub taints : n'.taints ≡ n.taints
  pub left : (res : String) → available n' res ≡ available n res -ℤ get_or (pos 0) res demand
  pub covered : All (λ e. pos 0 ≤ℤ available n' e.0) demand

sub_zero : (a : ℤ) → a ≡ a -ℤ pos 0
sub_zero a = omega int_laws

module _ (n : NodeEntry) (d : Dict ℤ) (u : UniqueKeys d) (nn : NonNegative d)
    (room : has_room n d ≡ true) where
  available-add_demand :
      (res : String) (o : Option ℤ)
      → lookup res d ≡ o
      → available (record n { reserved = add_demand n.reserved d }) res
        ≡ available n res -ℤ get_or (pos 0) res d
  unfolding available
  available-add_demand res none e =
      rw (get_or-add_demand res d n.reserved u, e, get_or-none (pos 0) res d e)
        (sub_zero (available n res))
  available-add_demand res (some q) e =
      rw (get_or-add_demand res d n.reserved u, e, get_or-some (pos 0) res q d e)
        (sub64-add64 _ _ q
          ∙ sub64_exact (available n res) q (sub64-IsInt64 _ _) (NonNegative-lookup res d q nn e)
              (has_room-lookup n res d q room e))

  pub add_demand-IsReserved : IsReserved n d (record n { reserved = add_demand n.reserved d })
  add_demand-IsReserved = record {
    allocatable = refl;
    used = refl;
    labels = refl;
    taints = refl;
    left = λ res. available-add_demand res (lookup res d) refl;
    covered = All-lookup _ d u λ res q e.
        rw (available-add_demand res (some q) e, get_or-some (pos 0) res q d e)
          (omega (int_laws, has_room-lookup n res d q room e));
  }

module _ (name : String) (n : NodeEntry) (l : Ledger) where
  pub find_entry-store_entry : find_entry name (store_entry name n l) ≡ some n
  unfolding find_entry store_entry
  find_entry-store_entry =
      ground (arith, lookup-insert_self name n l.nodes, lookup-insert_self name n l.inflight)

  pub find_entry-store_entry_ne :
      (other : String)
      → (name == other) ≡ false
      → find_entry other (store_entry name n l) ≡ find_entry other l
  unfolding find_entry store_entry
  find_entry-store_entry_ne other ne =
      ground (
        arith,
        lookup-insert_ne name other n l.nodes ne,
        lookup-insert_ne name other n l.inflight ne,
      )

module _ (name : String) (demand : Dict ℤ) (l : Ledger) where
  pub reserve_room :
      (n : NodeEntry)
      → find_entry name l ≡ some n
      → has_room n demand ≡ true
      → reserve name demand l
        ≡ (ok, store_entry name (record n { reserved = add_demand n.reserved demand }) l)
  unfolding reserve
  reserve_room n e room = ground arith

  reserve_missing : find_entry name l ≡ none → reserve name demand l ≡ (no_fit, l)
  unfolding reserve
  reserve_missing e = ground arith

  reserve_short :
      (n : NodeEntry)
      → find_entry name l ≡ some n
      → has_room n demand ≡ false
      → reserve name demand l ≡ (no_fit, l)
  unfolding reserve
  reserve_short n e room = ground arith

  pub reserve_ok :
      (n : NodeEntry)
      → find_entry name l ≡ some n
      → (reserve name demand l).0 ≡ ok
      → reserve name demand l
        ≡ (ok, store_entry name (record n { reserved = add_demand n.reserved demand }) l)
  reserve_ok n e done = elim (Bool-cases (has_room n demand)) [
    | inl room ↦ reserve_room n e room
    | inr short ↦ absurd (ground (arith, reserve_short n e short))
  ]

  pub reserve-cases :
      (reserve name demand l ≡ (no_fit, l))
      ⊎ ((n : NodeEntry) × (find_entry name l ≡ some n)
          × (has_room n demand ≡ true)
          × (reserve name demand l
              ≡ (ok, store_entry name (record n { reserved = add_demand n.reserved demand }) l)))
  reserve-cases = elim (Option-cases (find_entry name l)) [
    | inl absent ↦ inl (reserve_missing absent)
    | inr (n, e) ↦ elim (Bool-cases (has_room n demand)) [
      | inl room ↦ inr (n, e, room, reserve_room n e room)
      | inr short ↦ inl (reserve_short n e short)
    ]
  ]

  -- A reservation that succeeds, of a demand with no negative quantity: the node was known, it has
  -- exactly the demand less of every resource, no demanded resource is left below zero, and the
  -- rest of the node is as before. No bound on the quantities is assumed: int64 wraps around.
  pub reserve_takes :
      UniqueKeys demand
      → NonNegative demand
      → (reserve name demand l).0 ≡ ok
      → (n : NodeEntry) × (n' : NodeEntry) × (find_entry name l ≡ some n)
        × (find_entry name (reserve name demand l).1 ≡ some n')
        × IsReserved n demand n'
  reserve_takes u nn h = elim (Option-cases (find_entry name l)) [
    | inl absent ↦ absurd (ground (arith, reserve_missing absent))
    | inr (n, e) ↦ elim (Bool-cases (has_room n demand)) [
      | inl room ↦
          let n' : NodeEntry = record n { reserved = add_demand n.reserved demand } in
          (
            n,
            n',
            e,
            rw (reserve_room n e room) (find_entry-store_entry name n' l),
            add_demand-IsReserved n demand u nn room,
          )
      | inr short ↦ absurd (ground (arith, reserve_short n e short))
    ]
  ]

  -- A reservation that is refused leaves the ledger as it was, and has a reason: no node has the
  -- name, or the node has less of some demanded resource than is demanded.
  pub reserve_refused :
      UniqueKeys demand
      → (reserve name demand l).0 ≡ no_fit
      → ((reserve name demand l).1 ≡ l)
        × ((find_entry name l ≡ none)
            ⊎ ((n : NodeEntry) × (res : String) × (q : ℤ) × (find_entry name l ≡ some n)
                × (lookup res demand ≡ some q)
                × (available n res <ℤ q)))
  reserve_refused u h = elim (Option-cases (find_entry name l)) [
    | inl absent ↦ (ap (λ r. r.1) (reserve_missing absent), inl absent)
    | inr (n, e) ↦ elim (Bool-cases (has_room n demand)) [
      | inl room ↦ absurd (ground (arith, reserve_room n e room))
      | inr short ↦
          let (res, q, found, less) = has_room_short n demand u short in
          (ap (λ r. r.1) (reserve_short n e short), inr (n, res, q, e, found, less))
    ]
  ]

  -- Whatever its outcome, a reservation changes no other entry.
  reserve_others :
      (other : String)
      → (name == other) ≡ false
      → find_entry other (reserve name demand l).1 ≡ find_entry other l
  unfolding reserve
  reserve_others other ne = elim (Option-cases (find_entry name l)) [
    | inl absent ↦ ground arith
    | inr (n, e) ↦ ground (
      arith,
      find_entry-store_entry_ne name (record n { reserved = add_demand n.reserved demand }) l other
          ne,
    )
  ]
