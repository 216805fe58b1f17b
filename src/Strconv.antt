-- ===== src/Strconv.antt =====
-- Go's `strconv.ParseInt(s, 10, 64)` and `strconv.Atoi`.
use Prim.Native.Char.{code}
use Prim.Native.String.{[], ◌∷◌}
use kompakt.Prelude.{
  ℕ, suc, ◌+◌, ◌-◌, ◌*◌, ◌^◌, String, ◌==◌, Bool, true, false, Option, none, some, leb, ltb, nat_eq,
  ◌&&◌, if◌then◌else◌,
}
use kompakt.Int.{ℤ, pos, negsuc, max_int64}

-- An unsigned number, or which error.
pub data Parsed : Type 0 where
  value : ℕ → Parsed
  syntax : Parsed
  range : Parsed

-- The loop of `ParseUint`, which stops at the digit that passes 2^64 - 1.
unfoldable pub parse_digits : String → ℕ → Parsed
parse_digits [] n = value n
parse_digits (c ∷ s) n =
    let n' = n * 10 + (code c - b'0') in
    let rest = parse_digits s n' in
    if leb b'0' (code c) && leb (code c) b'9'
    then (if ltb n' (2 ^ 64) then rest else range)
    else syntax

-- `ParseUint(s, 10, 64)`
unfoldable pub parse_uint64 : String → Parsed
unfolding parse_digits
parse_uint64 s = if s == "" then syntax else parse_digits s 0

-- A sign and what stands behind it.
unfoldable pub split_sign : String → Bool × String
split_sign [] = (false, [])
split_sign (c ∷ s) =
    if nat_eq (code c) b'-'
    then (true, s)
    else if nat_eq (code c) b'+'
    then (false, s)
    else (false, c ∷ s)

abbrev minus : ℕ → ℤ
minus ℕ.zero = pos 0
minus (suc n) = negsuc n

-- What `ParseInt` returns of the unsigned part: the value, and whether there is no error.
unfoldable pub signed : Bool → Parsed → ℤ × Bool
signed negative syntax = (pos 0, false)
signed false range = (max_int64, false)
signed false (value n) = if ltb n (2 ^ 63) then (pos n, true) else (max_int64, false)
signed true range = (minus (2 ^ 63), false)
signed true (value n) = if ltb (2 ^ 63) n then (minus (2 ^ 63), false) else (minus n, true)

-- `ParseInt`, value and success.
unfoldable pub parse_int : String → ℤ × Bool
unfolding parse_uint64 split_sign signed
parse_int s = let (negative, digits) = split_sign s in signed negative (parse_uint64 digits)

-- `ParseInt` where the error is looked at.
unfoldable pub parse_int64 : String → Option ℤ
unfolding parse_int
parse_int64 s = let (n, fine) = parse_int s in if fine then some n else none

-- `n, _ = Atoi(s)`: the error is dropped, and the value is taken as it is.
unfoldable pub atoi : String → ℤ
unfolding parse_int
atoi s = (parse_int s).0
