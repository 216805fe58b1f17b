-- ===== src/Clock.antt =====
-- The functions of Go's `time` package that the program calls, on instants and durations in nanoseconds.
use kompakt.Prelude.{ℕ, ◌+◌, ◌*◌, ◌/◌, ◌^◌, ◌-◌, ◌≡◌, arith, if◌then◌else◌}
use kompakt.Int.{ℤ, pos, negsuc, ◌+ℤ◌, ◌-ℤ◌, max_int64, ltb_ℤ}

-- `time.Time.Sub`: the difference in nanoseconds, at most an int64 away from zero.
unfoldable pub time_sub : ℤ → ℤ → ℤ
unfolding ◌-ℤ◌
time_sub t u =
    let d = t -ℤ u in
    if ltb_ℤ max_int64 d
    then max_int64
    else if ltb_ℤ d (negsuc (2 ^ 63 - 1))
    then negsuc (2 ^ 63 - 1)
    else d

-- A second.
abbrev pub second : ℕ
second = 1_000_000_000

-- An instant without its part of a second.
abbrev pub seconds : ℤ → ℤ
seconds (pos n) = pos (n / second * second)
seconds (negsuc n) = negsuc ((n / second + 1) * second - 1)

pub seconds-add : (a : ℤ) (k : ℕ) → seconds (a +ℤ pos (k * second)) ≡ seconds a +ℤ pos (k * second)
unfolding ◌+ℤ◌
seconds-add a k = ground arith
