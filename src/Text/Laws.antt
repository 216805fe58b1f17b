-- ===== src/Text/Laws.antt =====
-- Laws of the functions on texts: what stands where in a text that is put together.
use Prim.Native.Char.{Char, code}
use Prim.Native.String.{[], ◌∷◌}
use Prim.Native.String.append
use mathlib.Core.List as L
use text.Mathlib.TextLemmas.{cons-ne-nil}
use kompakt.Prelude.{
  ℕ, String, ◌==◌, eq_iff, ◌≡◌, refl, Bool, true, false, some, ◌&&◌, ◌||◌, arith, nat_eq, leb,
}
use kompakt.Text.{
  ◌+++◌, has_prefix, contains, is_space, trim_left, trim_right, trim_space, behind, after_first,
  split,
}

-- Whether a character stands in a text.
unfoldable pub occurs : ℕ → String → Bool
occurs d [] = false
occurs d (c ∷ s) = nat_eq (code c) d || occurs d s

pub occurs-append : (d : ℕ) (s t : String) → occurs d (s +++ t) ≡ (occurs d s || occurs d t)
unfolding occurs
occurs-append d [] t = rw append.nil refl
occurs-append d (c ∷ s) t = ground (arith, append.cons c s t, occurs-append d s t)

pub behind-append : (p s : String) → behind (p +++ s) p ≡ some s
unfolding behind
behind-append [] s = rw append.nil refl
behind-append (c ∷ p) s = ground (arith, append.cons c p s, behind-append p s)

-- A text up to the first separator.
pub split-append :
    (s t : String) (c : Char)
    → occurs (code c) s ≡ false
    → split (s +++ (c ∷ t)) (code c) ≡ L.◌∷◌ s (split t (code c))
unfolding split occurs
split-append [] t c h = rw append.nil (ground arith)
split-append (d ∷ s) t c h = rw (append.cons d s (c ∷ t)) (ground (arith, split-append s t c))

pub split_last : (s : String) (sep : ℕ) → occurs sep s ≡ false → split s sep ≡ L.◌∷◌ s L.[]
unfolding split occurs
split_last [] sep h = refl
split_last (d ∷ s) sep h = ground (arith, split_last s sep)

-- A text whose prefix or part holds a character holds it.
has_prefix-occurs :
    (s t : String) (d : ℕ) → occurs d t ≡ true → occurs d s ≡ false → has_prefix s t ≡ false
unfolding has_prefix occurs
has_prefix-occurs s [] d h k = absurd (ground arith)
has_prefix-occurs [] (e ∷ t) d h k = refl
has_prefix-occurs (c ∷ s) (e ∷ t) d h k = ground (arith, has_prefix-occurs s t d)

pub contains-occurs :
    (s t : String) (d : ℕ) → occurs d t ≡ true → occurs d s ≡ false → contains s t ≡ false
unfolding contains occurs
contains-occurs [] t d h k = has_prefix-occurs [] t d h k
contains-occurs (c ∷ s) t d h k =
    ground (arith, has_prefix-occurs (c ∷ s) t d h k, contains-occurs s t d h)

pub has_prefix-here : (p s : String) → has_prefix (p +++ s) p ≡ true
unfolding has_prefix
has_prefix-here [] s = refl
has_prefix-here (c ∷ p) s = ground (arith, append.cons c p s, has_prefix-here p s)

contains-here : (s t : String) → has_prefix s t ≡ true → contains s t ≡ true
unfolding contains
contains-here [] t h = h
contains-here (c ∷ s) t h = ground arith

pub contains-append : (s p t : String) → contains (s +++ (p +++ t)) p ≡ true
unfolding contains
contains-append [] p t = rw append.nil (contains-here (p +++ t) p (has_prefix-here p t))
contains-append (c ∷ s) p t = rw (append.cons c s (p +++ t)) (ground (arith, contains-append s p t))

-- What stands behind the first occurrence of a text whose first character was not met before.
pub after_first-append :
    (s p t : String) (d : Char)
    → occurs (code d) s ≡ false
    → after_first (s +++ ((d ∷ p) +++ t)) (d ∷ p) ≡ some t
unfolding after_first occurs behind
after_first-append [] p t d h =
    rw append.nil (ground (arith, append.cons d p t, behind-append (d ∷ p) t))
after_first-append (c ∷ s) p t d h =
    rw (append.cons c s ((d ∷ p) +++ t)) (ground (arith, after_first-append s p t d))

pub empty-append : (s t : String) → (t == "") ≡ false → (s +++ t == "") ≡ false
empty-append [] t h = rw append.nil h
empty-append (c ∷ s) t h =
    rw (append.cons c s t) (ground (arith, eq_iff (c ∷ (s +++ t)) "", cons-ne-nil c (s +++ t)))

pub trim_right-append :
    (s t : String) → trim_right t ≡ t → (t == "") ≡ false → trim_right (s +++ t) ≡ s +++ t
unfolding trim_right
trim_right-append [] t h e = rw append.nil h
trim_right-append (c ∷ s) t h e =
    rw (append.cons c s t) (ground (arith, trim_right-append s t h e, empty-append s t e))

-- A text of decimal digits.
unfoldable pub is_digits : String → Bool
is_digits [] = true
is_digits (c ∷ s) = leb b'0' (code c) && leb (code c) b'9' && is_digits s

pub is_digits-append : (s t : String) → is_digits (s +++ t) ≡ (is_digits s && is_digits t)
unfolding is_digits
is_digits-append [] t = rw append.nil refl
is_digits-append (c ∷ s) t = ground (arith, append.cons c s t, is_digits-append s t)

pub is_digits-occurs :
    (s : String) (d : ℕ)
    → (leb b'0' d && leb d b'9') ≡ false
    → is_digits s ≡ true
    → occurs d s ≡ false
unfolding is_digits occurs
is_digits-occurs [] d h k = refl
is_digits-occurs (c ∷ s) d h k = ground (arith, is_digits-occurs s d h)

pub trim_right-is_digits : (s : String) → is_digits s ≡ true → trim_right s ≡ s
unfolding trim_right is_digits is_space
trim_right-is_digits [] h = refl
trim_right-is_digits (c ∷ s) h = ground (arith, trim_right-is_digits s)

pub trim_left-is_digits : (s : String) → is_digits s ≡ true → trim_left s ≡ s
unfolding trim_left is_digits is_space
trim_left-is_digits [] h = refl
trim_left-is_digits (c ∷ s) h = ground arith

trim_left-append :
    (c : Char) (p t : String)
    → is_space (code c) ≡ false
    → trim_left ((c ∷ p) +++ t) ≡ (c ∷ p) +++ t
unfolding trim_left
trim_left-append c p t h = rw (append.cons c p t) (ground arith)

-- A text that begins and ends with no white space keeps both ends.
pub trim_space-append :
    (c : Char) (p t : String)
    → is_space (code c) ≡ false
    → trim_right t ≡ t
    → (t == "") ≡ false
    → trim_space ((c ∷ p) +++ t) ≡ (c ∷ p) +++ t
unfolding trim_space
trim_space-append c p t h k e = rw (trim_left-append c p t h) (trim_right-append (c ∷ p) t k e)

pub trim_space-skip :
    (c : Char) (s : String) → is_space (code c) ≡ true → trim_space (c ∷ s) ≡ trim_space s
unfolding trim_space trim_left
trim_space-skip c s h = ground arith
