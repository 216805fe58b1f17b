-- ===== src/Text.antt =====
-- The functions of Go's `strings` package that the program calls, and the laws of prefixes.
pub mod Laws
use Prim.Native.Char.{Char, code}
use Prim.Native.String.{[], ◌∷◌}
use Prim.Native.String.append
use mathlib.Core.List as L
use mathlib.Core.Option.{Option, none, some}
use text.Mathlib.TextEquality.{Char-path}
use kompakt.Prelude.{
  ℕ, String, ◌==◌, ◌≡◌, refl, Bool, true, false, List, ◌&&◌, ◌||◌, not, arith, nat_eq, leb,
  if◌then◌else◌,
}

infixr 65 ◌+++◌
-- `a + b` on strings.
abbrev pub ◌+++◌ : String → String → String
s +++ t = Prim.Native.String.◌++◌ s t

-- `strings.HasPrefix(s, p)`
unfoldable pub has_prefix : String → String → Bool
has_prefix s [] = true
has_prefix [] (d ∷ p) = false
has_prefix (c ∷ s) (d ∷ p) = nat_eq (code c) (code d) && has_prefix s p

-- `strings.Contains(s, t)`
unfoldable pub contains : String → String → Bool
unfolding has_prefix
contains [] t = has_prefix [] t
contains (c ∷ s) t = has_prefix (c ∷ s) t || contains s t

pub has_prefix-append : (p s : String) → has_prefix (p +++ s) p ≡ true
unfolding has_prefix
has_prefix-append [] s = refl
has_prefix-append (c ∷ p) s = ground (arith, append.cons c p s, has_prefix-append p s)

-- Whether a text holds no `/`.
unfoldable pub slash_free : String → Bool
slash_free [] = true
slash_free (c ∷ s) = not (nat_eq (code c) b'/') && slash_free s

no_slash_head :
    (c d : Char) (s p : String)
    → has_prefix (c ∷ s) ("/" +++ "") ≡ true
    → has_prefix (c ∷ s) (d ∷ p) ≡ true
    → code d ≡ b'/'
unfolding has_prefix
no_slash_head c d s p h k = ground arith

-- Of the names with no `/`, one at most is a prefix of a text with a `/` behind it.
pub prefix_unique :
    (s p q : String)
    → slash_free p ≡ true
    → slash_free q ≡ true
    → has_prefix s (p +++ "/") ≡ true
    → has_prefix s (q +++ "/") ≡ true
    → p ≡ q
unfolding has_prefix slash_free
prefix_unique s [] [] sp sq hp hq = refl
prefix_unique [] [] (d ∷ q) sp sq hp hq = ground arith
prefix_unique (c ∷ s) [] (d ∷ q) sp sq hp hq =
    ground (arith, append.cons d q "/", no_slash_head c d s (q +++ "/"))
prefix_unique [] (d ∷ p) q sp sq hp hq = ground (arith, append.cons d p "/")
prefix_unique (c ∷ s) (d ∷ p) [] sp sq hp hq =
    ground (arith, append.cons d p "/", no_slash_head c d s (p +++ "/"))
prefix_unique (c ∷ s) (d ∷ p) (e ∷ q) sp sq hp hq =
    ground (arith, append.cons d p "/", append.cons e q "/", prefix_unique s p q, Char-path d e)

-- The white space of `unicode.IsSpace`.
unfoldable pub is_space : ℕ → Bool
is_space c =
    (leb 9 c && leb c 13)
    || nat_eq c 32
    || nat_eq c 0x85
    || nat_eq c 0xa0
    || nat_eq c 0x1680
    || (leb 0x2000 c && leb c 0x200a)
    || nat_eq c 0x2028
    || nat_eq c 0x2029
    || nat_eq c 0x202f
    || nat_eq c 0x205f
    || nat_eq c 0x3000

unfoldable pub trim_left : String → String
unfolding is_space
trim_left [] = []
trim_left (c ∷ s) = if is_space (code c) then trim_left s else c ∷ s

unfoldable pub trim_right : String → String
unfolding is_space
trim_right [] = []
trim_right (c ∷ s) =
    let rest : String = trim_right s in if is_space (code c) && rest == "" then [] else c ∷ rest

-- `strings.TrimSpace`
unfoldable pub trim_space : String → String
unfolding trim_left trim_right
trim_space s = trim_right (trim_left s)

-- What stands behind a prefix, if the text begins with it.
unfoldable pub behind : String → String → Option String
behind s [] = some s
behind [] (d ∷ p) = none
behind (c ∷ s) (d ∷ p) = if nat_eq (code c) (code d) then behind s p else none

-- `strings.TrimPrefix`
unfoldable pub trim_prefix : String → String → String
unfolding behind
trim_prefix s p = elim (behind s p) [ none ↦ s | some rest ↦ rest ]

-- What stands behind the first occurrence of a text: `s[strings.Index(s, t)+len(t):]`.
unfoldable pub after_first : String → String → Option String
unfolding behind
after_first [] t = behind [] t
after_first (c ∷ s) t = elim (behind (c ∷ s) t) [ some rest ↦ some rest | none ↦ after_first s t ]

-- A character in front of the first of some texts.
abbrev onto_first : Char → List String → List String
onto_first c L.[] = L.◌∷◌ (c ∷ []) L.[]
onto_first c (L.◌∷◌ t ts) = L.◌∷◌ (c ∷ t) ts

-- `strings.Split`, at a separator of one character.
unfoldable pub split : String → ℕ → List String
split [] sep = L.◌∷◌ [] L.[]
split (c ∷ s) sep =
    if nat_eq (code c) sep then L.◌∷◌ [] (split s sep) else onto_first c (split s sep)

pub has_prefix-join : (p s : String) → has_prefix (p +++ ("/" +++ s)) (p +++ "/") ≡ true
unfolding has_prefix
has_prefix-join [] s = ground (arith, append.nil ("/" +++ s), has_prefix-append "/" s)
has_prefix-join (c ∷ p) s =
    ground (arith, append.cons c p "/", append.cons c p ("/" +++ s), has_prefix-join p s)
