-- ===== src/Ledger/Sure.antt =====
-- internal/ledger/ledger.go: a reservation on the node that a search has just returned.
use kompakt.Prelude.{
  String, ◌≡◌, ◌⊎◌, refl, ap, Bool, true, Option, none, some, [], ◌∷◌, arith, if◌then◌else◌,
}
use kompakt.Int.{ℤ, pos, add64, sub64}
use kompakt.Dict.{Dict, lookup, UniqueKeys}
use kompakt.Ledger.{NodeEntry, Ledger, available, has_room, clear_inflight, find_entry, ok, reserve}
use kompakt.Ledger.Fit.{PodSchedulingConstraints, slack_loop, find_fit, find_fit_existing}
use kompakt.Ledger.BestFit.{IsEligible}
use kompakt.Ledger.Reserving.{reserve_room}
use kompakt.Ledger.Choice.{find_fit_sound, find_fit_existing-eq, name_of}

-- The search and the reservation agree on what fits.
has_room_of_slack :
    (n : NodeEntry) (d : Dict ℤ) (total s : ℤ) → slack_loop n d total ≡ some s → has_room n d ≡ true
unfolding slack_loop has_room
has_room_of_slack n [] total s h = ground arith
has_room_of_slack n ((res, q) ∷ d) total s h =
    ground (arith, has_room_of_slack n d (add64 total (sub64 (available n res) q)) s)

reserve_entry :
    (name : String) (demand : Dict ℤ) (l : Ledger) (n : NodeEntry)
    → find_entry name l ≡ some n
    → has_room n demand ≡ true
    → (reserve name demand l).0 ≡ ok
reserve_entry name demand l n e room = ap (λ r. r.0) (reserve_room name demand l n e room)

-- No name stands in both maps.
abbrev pub Disjoint : Ledger → String → Type 0
Disjoint l name = (lookup name l.nodes ≡ none) ⊎ (lookup name l.inflight ≡ none)

find_entry-flag :
    (l : Ledger) (name : String) (inflight : Bool) (n : NodeEntry)
    → Disjoint l name
    → lookup name (if inflight then l.inflight else l.nodes) ≡ some n
    → find_entry name l ≡ some n
unfolding find_entry
find_entry-flag l name inflight n apart e = ground arith

pub find_entry-node :
    (l : Ledger) (name : String) (n : NodeEntry)
    → lookup name l.nodes ≡ some n
    → find_entry name l ≡ some n
unfolding find_entry
find_entry-node l name n e = ground arith

-- A reservation of the demand on the node that `FindFit` has returned, with no step in between,
-- succeeds: nothing has to be done again where the two maps do not share the node's name.
pub reserve-find_fit :
    (demand : Dict ℤ) (constraints : Option PodSchedulingConstraints) (l : Ledger) (name : String)
    (inflight : Bool)
    → UniqueKeys l.nodes
    → UniqueKeys l.inflight
    → Disjoint l name
    → find_fit demand constraints l ≡ some (name, inflight)
    → (reserve name demand l).0 ≡ ok
reserve-find_fit demand constraints l name inflight un ui apart h =
    let (n, s, found, el) = find_fit_sound demand constraints l name inflight un ui h in
    reserve_entry name demand l n (find_entry-flag l name inflight n apart found)
      (has_room_of_slack n demand (pos 0) s el.fits)

find_fit_of_existing :
    (demand : Dict ℤ) (constraints : Option PodSchedulingConstraints) (l : Ledger) (name : String)
    → find_fit_existing demand constraints l ≡ some name
    → (inflight : Bool) × (find_fit demand constraints (clear_inflight l) ≡ some (name, inflight))
find_fit_of_existing demand constraints l name h =
    go (find_fit demand constraints (clear_inflight l)) (find_fit_existing-eq demand constraints l)
      refl
  where
    go :
        (o : Option (String × Bool))
        → find_fit_existing demand constraints l ≡ name_of o
        → find_fit demand constraints (clear_inflight l) ≡ o
        → (inflight : Bool) × (find_fit demand constraints (clear_inflight l)
            ≡ some (name, inflight))
    go none e same = cc
    go (some (found, inflight)) e same = (inflight, ground arith)

-- `FindFitExisting` returns an existing node that the pod may go to and that has room for the
-- demand, and a reservation on it succeeds.
pub reserve-find_fit_existing :
    (demand : Dict ℤ) (constraints : Option PodSchedulingConstraints) (l : Ledger) (name : String)
    → UniqueKeys l.nodes
    → find_fit_existing demand constraints l ≡ some name
    → (n : NodeEntry) × (slack : ℤ) × (lookup name l.nodes ≡ some n)
      × IsEligible demand constraints n slack
      × ((reserve name demand l).0 ≡ ok)
unfolding clear_inflight lookup
reserve-find_fit_existing demand constraints l name un h =
    let (inflight, h') = find_fit_of_existing demand constraints l name h in
    let (n, s, found, el) =
      find_fit_sound demand constraints (clear_inflight l) name inflight un tt h' in
    let e : lookup name l.nodes ≡ some n = ground arith in
    (
      n,
      s,
      e,
      el,
      reserve_entry name demand l n (find_entry-node l name n e)
          (has_room_of_slack n demand (pos 0) s el.fits),
    )
