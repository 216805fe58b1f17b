-- ===== src/Dict/Laws.antt =====
-- The laws of the maps, one for each operation under a lookup.
use mathlib.Core.Path.{subst}
use kompakt.Prelude.{
  String, ◌==◌, eq_iff, eq_refl, ◌≡◌, refl, ap, Bool, true, false, none, some, [], ◌∷◌, arith, All,
  if◌then◌else◌, Bool-cases, inl, inr,
}
use kompakt.Dict.{Dict, lookup, get_or, insert, erase, erase_if, missing, UniqueKeys}

module _ {ℓ} {V : Type ℓ} where
  pub lookup-insert :
      (k j : String) (v : V) (d : Dict V)
      → lookup j (insert k v d) ≡ (if k == j then some v else lookup j d)
  unfolding lookup insert
  lookup-insert k j v [] = refl
  lookup-insert k j v ((i, w) ∷ d) =
      ground (arith, eq_iff k j, eq_iff i k, eq_iff i j, lookup-insert k j v d)

  pub lookup-insert_self : (k : String) (v : V) (d : Dict V) → lookup k (insert k v d) ≡ some v
  lookup-insert_self k v d = simp (lookup-insert, eq_refl)

  pub lookup-insert_ne :
      (k j : String) (v : V) (d : Dict V) → (k == j) ≡ false → lookup j (insert k v d) ≡ lookup j d
  lookup-insert_ne k j v d h = rw (lookup-insert, h)

  pub lookup-erase :
      (k j : String) (d : Dict V) → lookup j (erase k d) ≡ (if k == j then none else lookup j d)
  unfolding lookup erase
  lookup-erase k j [] = ground arith
  lookup-erase k j ((i, w) ∷ d) =
      ground (arith, eq_iff k j, eq_iff i k, eq_iff i j, lookup-erase k j d)

  pub lookup-erase_if :
      (p : String → Bool) (j : String) (d : Dict V)
      → lookup j (erase_if p d) ≡ (if p j then none else lookup j d)
  unfolding lookup erase_if
  lookup-erase_if p j [] = ground arith
  lookup-erase_if p j ((i, w) ∷ d) = elim (Bool-cases (i == j)) [
    | inl e ↦
        let same : i ≡ j = (eq_iff i j).0 e in ground (arith, ap p same, lookup-erase_if p j d)
    | inr ne ↦ ground (arith, lookup-erase_if p j d)
  ]

  pub missing-eq-lookup : (k : String) (d : Dict V) → missing k d ≡ true → lookup k d ≡ none
  unfolding missing lookup
  missing-eq-lookup k [] h = refl
  missing-eq-lookup k ((j, w) ∷ d) h = ground (arith, missing-eq-lookup k d)

  pub missing-insert :
      (k j : String) (v : V) (d : Dict V)
      → missing j (insert k v d) ≡ (if k == j then false else missing j d)
  unfolding missing insert
  missing-insert k j v [] = refl
  missing-insert k j v ((i, w) ∷ d) =
      ground (arith, eq_iff k j, eq_iff i k, eq_iff i j, missing-insert k j v d)

  pub insert-UniqueKeys :
      (k : String) (v : V) (d : Dict V) → UniqueKeys d → UniqueKeys (insert k v d)
  unfolding insert missing
  insert-UniqueKeys k v [] h = (refl, tt)
  insert-UniqueKeys k v ((i, w) ∷ d) h =
      ground (arith, eq_iff i k, eq_iff k i, insert-UniqueKeys k v d h.1, missing-insert k i v d)

  missing-erase_if :
      (p : String → Bool) (j : String) (d : Dict V)
      → missing j d ≡ true
      → missing j (erase_if p d) ≡ true
  unfolding missing erase_if
  missing-erase_if p j [] h = refl
  missing-erase_if p j ((i, w) ∷ d) h = ground (arith, missing-erase_if p j d)

  pub erase_if-UniqueKeys :
      (p : String → Bool) (d : Dict V) → UniqueKeys d → UniqueKeys (erase_if p d)
  unfolding erase_if
  erase_if-UniqueKeys p [] h = tt
  erase_if-UniqueKeys p ((i, w) ∷ d) h =
      ground (arith, erase_if-UniqueKeys p d h.1, missing-erase_if p i d)

  missing-erase : (k j : String) (d : Dict V) → missing j d ≡ true → missing j (erase k d) ≡ true
  unfolding missing erase
  missing-erase k j [] h = refl
  missing-erase k j ((i, w) ∷ d) h = ground (arith, missing-erase k j d)

  pub erase-UniqueKeys : (k : String) (d : Dict V) → UniqueKeys d → UniqueKeys (erase k d)
  unfolding erase
  erase-UniqueKeys k [] h = tt
  erase-UniqueKeys k ((i, w) ∷ d) h = ground (arith, erase-UniqueKeys k d h.1, missing-erase k i d)

  pub get_or-insert :
      (z : V) (k j : String) (v : V) (d : Dict V)
      → get_or z j (insert k v d) ≡ (if k == j then v else get_or z j d)
  unfolding get_or
  get_or-insert z k j v d = ground (arith, lookup-insert k j v d)

  pub get_or-some :
      (z : V) (k : String) (v : V) (d : Dict V) → lookup k d ≡ some v → get_or z k d ≡ v
  unfolding get_or
  get_or-some z k v d e = ground arith

  pub get_or-none : (z : V) (k : String) (d : Dict V) → lookup k d ≡ none → get_or z k d ≡ z
  unfolding get_or
  get_or-none z k d e = ground arith

module _ {ℓ κ} {V : Type ℓ} where
  -- What holds of every entry that a lookup finds holds of every entry.
  pub All-lookup :
      (P : String × V → Type κ) (d : Dict V)
      → UniqueKeys d
      → ((k : String) (v : V) → lookup k d ≡ some v → P (k, v))
      → All P d
  unfolding lookup
  All-lookup P [] u h = tt
  All-lookup P ((j, w) ∷ d) u h = (
    h j w (ground (arith, eq_refl j)),
    All-lookup P d u.1 λ k v e. h k v (ground (arith, eq_iff j k, missing-eq-lookup j d u.0)),
  )

  -- What holds of every entry holds of the one that a lookup finds, at the key that was looked up.
  pub lookup-All :
      (P : V → Type κ) (k : String) (v : V) (d : Dict V)
      → All (λ e. P e.1) d
      → lookup k d ≡ some v
      → P v
  unfolding lookup
  lookup-All P k v [] h e = cc
  lookup-All P k v ((j, w) ∷ d) h e = elim (Bool-cases (j == k)) [
    | inl here ↦ let same : w ≡ v = ground arith in subst P same h.0
    | inr there ↦ lookup-All P k v d h.1 (ground arith)
  ]
