-- ===== src/Regex/Sound.antt =====
-- What a match says of the text.
use Prim.Native.Char.{Char, code}
use Prim.Native.String.{[], ◌∷◌}
use Prim.Native.String.append
use mathlib.Core.List as L
use kompakt.Prelude.{
  String, ◌≡◌, sym, ap, ◌∙◌, true, Option, some, List, ◌⊎◌, Bool-cases, Option-cases, inl, inr,
  arith,
}
use text.Mathlib.TextEquality.{Char-path}
use kompakt.Text.{◌+++◌, behind}
use kompakt.Regex.{Class, accepts, Item, literal, group, plus, match_at, find_submatch}
use kompakt.Regex.Words.{is_word}

-- The text begins with the items, the groups being words.
abbrev pub Spells : List Item → List String → String → Type 0
Spells L.[] L.[] s = Unit
Spells L.[] (L.◌∷◌ g gs) s = ⊥
Spells (L.◌∷◌ (literal p) items) gs s = (rest : String) × (s ≡ p +++ rest) × Spells items gs rest
Spells (L.◌∷◌ (group class) items) L.[] s = ⊥
Spells (L.◌∷◌ (group class) items) (L.◌∷◌ g gs) s =
    (rest : String) × (is_word class g ≡ true) × (s ≡ g +++ rest) × Spells items gs rest

pub behind-some : (s p rest : String) → behind s p ≡ some rest → s ≡ p +++ rest
unfolding behind
behind-some s [] rest h = ground (arith, append.nil rest)
behind-some [] (d ∷ p) rest h = absurd (ground arith)
behind-some (c ∷ s) (d ∷ p) rest h =
    ground (arith, append.cons d p rest, Char-path c d, behind-some s p rest)

is_word-cons :
    (class : Class) (c : Char) (t : String)
    → accepts class (code c) ≡ true
    → is_word class t ≡ true
    → is_word class (c ∷ t) ≡ true
unfolding is_word
is_word-cons class c [] a h = absurd (ground arith)
is_word-cons class c (d ∷ t) a h = ground arith

module _ (k : String → Option (List String)) (class : Class) where
  abbrev IsTaken : String → String → List String → Type 0
  IsTaken s t gs =
      (rest : String) × (is_word class t ≡ true) × (s ≡ t +++ rest) × (k rest ≡ some gs)

  -- How the group came about at a character.
  plus-cases :
      (c : Char) (s t : String) (gs : List String)
      → plus k class (c ∷ s) ≡ some (t, gs)
      → (accepts class (code c) ≡ true)
        × (((t' : String) × (plus k class s ≡ some (t', gs)) × (t ≡ c ∷ t'))
            ⊎ ((k s ≡ some gs) × (t ≡ c ∷ [])))
  unfolding plus
  plus-cases c s t gs h = elim (Bool-cases (accepts class (code c))) [
    | inr e ↦ absurd (ground arith)
    | inl e ↦ elim (Option-cases (plus k class s)) [
      | inr ((t', gs'), p) ↦ (e, inl (t', ground arith, ground arith))
      | inl p ↦ elim (Option-cases (k s)) [
        | inl n ↦ absurd (ground arith)
        | inr (gs', n) ↦ (e, inr (ground arith, ground arith))
      ]
    ]
  ]

  plus-IsTaken : (s t : String) (gs : List String) → plus k class s ≡ some (t, gs) → IsTaken s t gs
  unfolding plus is_word
  plus-IsTaken [] t gs h = absurd (ground arith)
  plus-IsTaken (c ∷ s) t gs h =
      let (a, cases) = plus-cases c s t gs h in
      elim cases [
        | inl (t', p, e) ↦
            let (rest, w, whole, more) = plus-IsTaken s t' gs p in
            (
              rest,
              ap (is_word class) e ∙ is_word-cons class c t' a w,
              ap (λ u. c ∷ u) whole ∙ sym (append.cons c t' rest) ∙ ap (λ u. u +++ rest) (sym e),
              more,
            )
        | inr (n, e) ↦ (
          s,
          ap (is_word class) e ∙ a,
          ap (λ u. c ∷ u) (sym (append.nil s))
              ∙ sym (append.cons c [] s)
              ∙ ap (λ u. u +++ s) (sym e),
          n,
        )
      ]

-- A match at the begin of a text: the text spells the items.
pub match_at-Spells :
    (items : List Item) (s : String) (gs : List String)
    → match_at items s ≡ some gs
    → Spells items gs s
unfolding match_at
match_at-Spells L.[] s L.[] h = tt
match_at-Spells L.[] s (L.◌∷◌ g gs) h = absurd (ground arith)
match_at-Spells (L.◌∷◌ (literal p) items) s gs h = elim (Option-cases (behind s p)) [
  | inl e ↦ absurd (ground arith)
  | inr (rest, e) ↦
      let more : match_at items rest ≡ some gs = ground arith in
      (rest, behind-some s p rest e, match_at-Spells items rest gs more)
]
match_at-Spells (L.◌∷◌ (group class) items) s L.[] h =
    elim (Option-cases (plus (match_at items) class s)) [
      | inl e ↦ absurd (ground arith)
      | inr ((t, gs'), e) ↦ absurd (ground arith)
    ]
match_at-Spells (L.◌∷◌ (group class) items) s (L.◌∷◌ g gs) h =
    elim (Option-cases (plus (match_at items) class s)) [
      | inl e ↦ absurd (ground arith)
      | inr ((t, gs'), e) ↦
          let same : plus (match_at items) class s ≡ some (g, gs) = ground arith in
          let (rest, w, whole, more) = plus-IsTaken (match_at items) class s g gs same in
          (rest, w, whole, match_at-Spells items rest gs more)
    ]

-- A match in a text: the text spells the items behind some beginning.
pub find_submatch-Spells :
    (items : List Item) (s : String) (gs : List String)
    → find_submatch items s ≡ some gs
    → (front : String) × (back : String) × (s ≡ front +++ back) × Spells items gs back
unfolding find_submatch
find_submatch-Spells items [] gs h = ([], [], sym (append.nil []), match_at-Spells items [] gs h)
find_submatch-Spells items (c ∷ s) gs h = elim (Option-cases (match_at items (c ∷ s))) [
  | inr (gs', e) ↦
      ([], c ∷ s, sym (append.nil (c ∷ s)), match_at-Spells items (c ∷ s) gs (ground arith))
  | inl e ↦
      let (front, back, whole, spells) = find_submatch-Spells items s gs (ground arith) in
      (c ∷ front, back, ap (λ u. c ∷ u) whole ∙ sym (append.cons c front back), spells)
]
