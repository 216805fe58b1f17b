-- ===== src/Dict.antt =====
-- Go's maps with string keys, as association lists: the order of the list is the order in which one
-- `range` loop meets the entries, so that all lists stand for all iteration orders.
-- A nil map is the empty list.
pub mod Laws
use kompakt.Prelude.{
  ℕ, String, ◌==◌, ◌≡◌, Bool, true, false, Option, none, some, List, [], ◌∷◌, if◌then◌else◌,
}

abbrev pub Dict {ℓ} : Type ℓ → Type ℓ
Dict V = List (String × V)

module _ {ℓ} {V : Type ℓ} where
  -- `v, ok := m[k]`
  unfoldable pub lookup : String → Dict V → Option V
  lookup k [] = none
  lookup k ((j, v) ∷ d) = if j == k then some v else lookup k d

  -- `m[k]`, which is the zero value `z` where the key is missing.
  unfoldable pub get_or : V → String → Dict V → V
  unfolding lookup
  get_or z k d = elim (lookup k d) [ none ↦ z | some v ↦ v ]

  -- `m[k] = v`
  unfoldable pub insert : String → V → Dict V → Dict V
  insert k v [] = (k, v) ∷ []
  insert k v ((j, w) ∷ d) = if j == k then (k, v) ∷ d else (j, w) ∷ insert k v d

  -- `delete(m, k)`
  unfoldable pub erase : String → Dict V → Dict V
  erase k [] = []
  erase k ((j, w) ∷ d) = if j == k then erase k d else (j, w) ∷ erase k d

  -- `for k := range m { if p(k) { delete(m, k) } }`
  unfoldable pub erase_if : (String → Bool) → Dict V → Dict V
  erase_if p [] = []
  erase_if p ((j, w) ∷ d) = if p j then erase_if p d else (j, w) ∷ erase_if p d

  -- Whether no entry has the key.
  unfoldable pub missing : String → Dict V → Bool
  missing k [] = true
  missing k ((j, _) ∷ d) = if j == k then false else missing k d

  -- A Go map holds a key once.
  abbrev pub UniqueKeys : Dict V → Type 0
  UniqueKeys [] = Unit
  UniqueKeys ((k, _) ∷ d) = (missing k d ≡ true) × UniqueKeys d
