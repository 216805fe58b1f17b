-- ===== src/Regex/Words.antt =====
-- Matches of words between literal texts.
use Prim.Native.Char.{Char, code}
use Prim.Native.String.{[], ◌∷◌}
use Prim.Native.String.append
use mathlib.Core.List as L
use kompakt.Prelude.{String, ◌≡◌, Bool, true, false, Option, none, some, List, ◌&&◌, arith}
use kompakt.Text.{◌+++◌}
use kompakt.Text.Laws.{behind-append}
use kompakt.Regex.{Class, accepts, Item, literal, group, plus, match_at, find_submatch}

-- A text that is not empty, of characters of the class.
unfoldable pub is_word : Class → String → Bool
unfolding accepts
is_word class [] = false
is_word class (c ∷ []) = accepts class (code c)
is_word class (c ∷ (d ∷ s)) = accepts class (code c) && is_word class (d ∷ s)

and-true : (a b : Bool) → (a && b) ≡ true → (a ≡ true) × (b ≡ true)
and-true a b h = (ground arith, ground arith)

module _ (rest : String → Option (List String)) (class : Class) where
  plus-on :
      (c : Char) (s t : String) (groups : List String)
      → accepts class (code c) ≡ true
      → plus rest class s ≡ some (t, groups)
      → plus rest class (c ∷ s) ≡ some (c ∷ t, groups)
  unfolding plus
  plus-on c s t groups a h = ground arith

  plus-last :
      (c : Char) (s : String) (groups : List String)
      → accepts class (code c) ≡ true
      → plus rest class s ≡ none
      → rest s ≡ some groups
      → plus rest class (c ∷ s) ≡ some (c ∷ [], groups)
  unfolding plus
  plus-last c s groups a stuck h = ground arith

  -- No group begins at a character that is not of the class.
  pub plus-refused :
      (c : Char) (s : String) → accepts class (code c) ≡ false → plus rest class (c ∷ s) ≡ none
  unfolding plus
  plus-refused c s a = ground arith

  -- Nor one behind which neither the group nor the rest goes on.
  pub plus-stuck :
      (c : Char) (s : String)
      → plus rest class s ≡ none
      → rest s ≡ none
      → plus rest class (c ∷ s) ≡ none
  unfolding plus
  plus-stuck c s a h = ground arith

  -- The group takes a word as a whole where it cannot go on, and the rest matches.
  pub plus-is_word :
      (w s : String) (groups : List String)
      → plus rest class s ≡ none
      → rest s ≡ some groups
      → is_word class w ≡ true
      → plus rest class (w +++ s) ≡ some (w, groups)
  unfolding is_word
  plus-is_word [] s groups stuck h k = absurd (ground arith)
  plus-is_word (c ∷ []) s groups stuck h k =
      rw (append.cons c [] s, append.nil s) (plus-last c s groups k stuck h)
  plus-is_word (c ∷ (d ∷ w)) s groups stuck h k =
      let (taken, more) = and-true (accepts class (code c)) (is_word class (d ∷ w)) k in
      rw (append.cons c (d ∷ w) s) (
        plus-on c ((d ∷ w) +++ s) (d ∷ w) groups taken (plus-is_word (d ∷ w) s groups stuck h more))

module _ (items : List Item) where
  -- A literal text is passed over.
  pub match_at-literal :
      (p s : String) → match_at (L.◌∷◌ (literal p) items) (p +++ s) ≡ match_at items s
  unfolding match_at
  match_at-literal p s = ground (arith, behind-append p s)

  -- A word is a group of its own where the rest matches behind it.
  pub match_at-group :
      (class : Class) (w s : String) (groups : List String)
      → plus (match_at items) class s ≡ none
      → match_at items s ≡ some groups
      → is_word class w ≡ true
      → match_at (L.◌∷◌ (group class) items) (w +++ s) ≡ some (L.◌∷◌ w groups)
  unfolding match_at
  match_at-group class w s groups stuck h k =
      ground (arith, plus-is_word (match_at items) class w s groups stuck h k)

  -- The leftmost match is the one where the text begins, if there is one.
  pub find_submatch-here :
      (s : String) (groups : List String)
      → match_at items s ≡ some groups
      → find_submatch items s ≡ some groups
  unfolding find_submatch
  find_submatch-here [] groups h = h
  find_submatch-here (c ∷ s) groups h = ground arith
