-- ===== src/Ledger/Releasing.antt =====
-- `ReleaseReservation` of internal/ledger/ledger.go, against `Reserve`.
use kompakt.Prelude.{
  String, eq_iff, ◌≡◌, refl, ◌∙◌, Option, none, some, [], ◌∷◌, arith, if◌then◌else◌,
}
use kompakt.Int.{ℤ, pos, ◌≤ℤ◌, ◌+ℤ◌, ◌-ℤ◌, IsInt64, add64, sub64, ltb_ℤ, max_int64, int_laws}
use kompakt.Int.Wrap.{sub64_exact, add64_exact}
use kompakt.Dict.{Dict, lookup, get_or, insert, UniqueKeys}
use kompakt.Dict.Laws.{missing-eq-lookup, get_or-insert}
use kompakt.Ledger.{
  NodeEntry, Ledger, find_entry, store_entry, ok, add_demand, drop_demand, reserve,
  release_reservation,
}
use kompakt.Ledger.Reserving.{
  NonNegative, NonNegative-lookup, get_or-add_demand, find_entry-store_entry, reserve_ok,
}

-- One round of the loop: a difference below zero becomes zero.
abbrev clamped : ℤ → ℤ
clamped a = if ltb_ℤ a (pos 0) then pos 0 else a

abbrev minus_demand : ℤ → Option ℤ → ℤ
minus_demand a none = a
minus_demand a (some q) = clamped (sub64 a q)

get_or-drop_demand :
    (j : String) (d r : Dict ℤ)
    → UniqueKeys d
    → get_or (pos 0) j (drop_demand r d) ≡ minus_demand (get_or (pos 0) j r) (lookup j d)
unfolding drop_demand lookup
get_or-drop_demand j [] r u = refl
get_or-drop_demand j ((res, q) ∷ d) r u =
    get_or-drop_demand j d (insert res (clamped (sub64 (get_or (pos 0) res r) q)) r) u.1
    ∙ ground (
      arith,
      eq_iff res j,
      get_or-insert (pos 0) res j (clamped (sub64 (get_or (pos 0) res r) q)) r,
      missing-eq-lookup res d u.0,
    )

sum-IsInt64 : (a q : ℤ) → pos 0 ≤ℤ a → pos 0 ≤ℤ q → a +ℤ q ≤ℤ max_int64 → IsInt64 (a +ℤ q)
unfolding ◌+ℤ◌
sum-IsInt64 a q na nq fits = ground arith

sub_of_add :
    (a q : ℤ)
    → IsInt64 a
    → pos 0 ≤ℤ a
    → pos 0 ≤ℤ q
    → a +ℤ q ≤ℤ max_int64
    → clamped (sub64 (add64 a q) q) ≡ a
sub_of_add a q ia na nq fits =
    let sum : add64 a q ≡ a +ℤ q = add64_exact a q (sum-IsInt64 a q na nq fits) in
    let back : sub64 (add64 a q) q ≡ a +ℤ q -ℤ q =
      rw sum (sub64_exact (a +ℤ q) q (sum-IsInt64 a q na nq fits) nq (omega int_laws)) in
    let same : a +ℤ q -ℤ q ≡ a = omega int_laws in rw (back, same) (ground arith)

-- The reserved quantities are int64 values that are not negative, and the demand can be added.
pub record HasHeadroom (n : NodeEntry) (demand : Dict ℤ) : Type 0 where
  pub is_int64 : (res : String) → IsInt64 (get_or (pos 0) res n.reserved)
  pub nonnegative : (res : String) → pos 0 ≤ℤ get_or (pos 0) res n.reserved
  pub fits :
      (res : String) (q : ℤ)
      → lookup res demand ≡ some q
      → get_or (pos 0) res n.reserved +ℤ q ≤ℤ max_int64

module _ (n : NodeEntry) (demand : Dict ℤ) (u : UniqueKeys demand) (nn : NonNegative demand)
    (h : HasHeadroom n demand) where
  drop-add_demand :
      (res : String) (o : Option ℤ)
      → lookup res demand ≡ o
      → get_or (pos 0) res (drop_demand (add_demand n.reserved demand) demand)
        ≡ get_or (pos 0) res n.reserved
  drop-add_demand res none e =
      rw
        (
          get_or-drop_demand res demand (add_demand n.reserved demand) u,
          get_or-add_demand res demand n.reserved u,
          e,
        )
        refl
  drop-add_demand res (some q) e =
      rw
        (
          get_or-drop_demand res demand (add_demand n.reserved demand) u,
          get_or-add_demand res demand n.reserved u,
          e,
        )
        (sub_of_add (get_or (pos 0) res n.reserved) q (h.is_int64 res) (h.nonnegative res)
          (NonNegative-lookup res demand q nn e) (h.fits res q e))

release_known :
    (name : String) (demand : Dict ℤ) (l : Ledger) (n : NodeEntry)
    → find_entry name l ≡ some n
    → release_reservation name demand l
      ≡ store_entry name (record n { reserved = drop_demand n.reserved demand }) l
unfolding release_reservation
release_known name demand l n e = ground arith

-- Releasing what has just been reserved gives back every reserved quantity of the node, if the
-- demand names a resource once and asks for no negative quantity, the quantities that were reserved
-- before are int64 values that are not negative, and their sums with the demand are at most the
-- largest int64.
pub release-reserve :
    (name : String) (demand : Dict ℤ) (l : Ledger) (n : NodeEntry)
    → UniqueKeys demand
    → NonNegative demand
    → find_entry name l ≡ some n
    → HasHeadroom n demand
    → (reserve name demand l).0 ≡ ok
    → (n' : NodeEntry) × (find_entry name
          (release_reservation name demand (reserve name demand l).1)
        ≡ some n')
      × ((res : String) → get_or (pos 0) res n'.reserved ≡ get_or (pos 0) res n.reserved)
release-reserve name demand l n u nn e h done =
    let held : NodeEntry = record n { reserved = add_demand n.reserved demand } in
    let freed : NodeEntry = record n { reserved = drop_demand held.reserved demand } in
    let l' : Ledger = store_entry name held l in
    (
      freed,
      rw
          (
            reserve_ok name demand l n e done,
            release_known name demand l' held (find_entry-store_entry name held l),
          )
          (find_entry-store_entry name freed l'),
      λ res. drop-add_demand n demand u nn h res (lookup res demand) refl,
    )
