-- ===== src/Regex.antt =====
-- The part of Go's `regexp` package that the program uses: an expression of literal texts and of groups
-- `(\S+)` and `(.+)`, searched for as `FindStringSubmatch` does.
pub mod Words
pub mod Sound
use Prim.Native.Char.{Char, code}
use Prim.Native.String.{[], ◌∷◌}
use mathlib.Core.List as L
use kompakt.Prelude.{
  ℕ, String, Bool, true, false, Option, none, some, List, not, ◌||◌, nat_eq, if◌then◌else◌,
}
use kompakt.Text.{behind}

-- The class of a group.
pub data Class : Type 0 where
  nonspace any_but_newline : Class

unfoldable pub accepts : Class → ℕ → Bool
accepts nonspace c =
    not (nat_eq c b'\t' || nat_eq c b'\n' || nat_eq c 0x0c || nat_eq c b'\r' || nat_eq c b' ')
accepts any_but_newline c = not (nat_eq c b'\n')

pub data Item : Type 0 where
  literal : String → Item
  group : Class → Item

-- A group `(x+)` and what `rest` makes of the text behind it: the longest one with which the rest
-- matches.
unfoldable pub plus :
    (String → Option (List String)) → Class → String → Option (String × List String)
unfolding accepts
plus rest class [] = none
plus rest class (c ∷ s) = elim (accepts class (code c)) [
  | false ↦ none
  | true ↦ elim (plus rest class s) [
    | some (t, groups) ↦ some (c ∷ t, groups)
    | none ↦ elim (rest s) [ none ↦ none | some groups ↦ some (c ∷ [], groups) ]
  ]
]

-- The groups of a match that begins where the text does.
unfoldable pub match_at : List Item → String → Option (List String)
unfolding plus behind
match_at L.[] s = some L.[]
match_at (L.◌∷◌ (literal p) items) s = elim (behind s p) [
  | none ↦ none
  | some rest ↦ match_at items rest
]
match_at (L.◌∷◌ (group class) items) s = elim (plus (match_at items) class s) [
  | none ↦ none
  | some (t, groups) ↦ some (L.◌∷◌ t groups)
]

-- The groups of the leftmost match.
unfoldable pub find_submatch : List Item → String → Option (List String)
unfolding match_at
find_submatch items [] = match_at items []
find_submatch items (c ∷ s) = elim (match_at items (c ∷ s)) [
  | some groups ↦ some groups
  | none ↦ find_submatch items s
]
