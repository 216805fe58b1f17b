-- ===== src/Int/Wrap.antt =====
-- The laws of int64 arithmetic: it is arithmetic modulo 2^64, and exact where the result fits.
use kompakt.Prelude.{ℕ, ◌+◌, ◌-◌, ◌%◌, ◌^◌, ◌<◌, ◌≡◌, sym, ◌∙◌, ap, arith}
use kompakt.Int.{
  ℤ, pos, ◌+ℤ◌, ◌-ℤ◌, ◌≤ℤ◌, bits, of_bits, add64, sub64, wrap64, IsInt64, wrap64-IsInt64,
  wrap64_exact, bits-wrap64, int_laws,
}

bits-add : (a b : ℤ) → bits (a +ℤ b) ≡ (bits a + bits b) % 2 ^ 64
unfolding bits ◌+ℤ◌
bits-add a b = ground arith

bits-sub : (a b : ℤ) → bits (a -ℤ b) ≡ (bits a + (2 ^ 64 - bits b)) % 2 ^ 64
unfolding bits ◌-ℤ◌
bits-sub a b = ground arith

bits-add64 : (a b : ℤ) → bits (add64 a b) ≡ (bits a + bits b) % 2 ^ 64
unfolding add64
bits-add64 a b = bits-wrap64 (a +ℤ b) ∙ bits-add a b

bits-sub64 : (a b : ℤ) → bits (sub64 a b) ≡ (bits a + (2 ^ 64 - bits b)) % 2 ^ 64
unfolding sub64
bits-sub64 a b = bits-wrap64 (a -ℤ b) ∙ bits-sub a b

bits-lt : (a : ℤ) → bits a < 2 ^ 64
unfolding bits
bits-lt a = omega arith

add64-of_bits : (a b : ℤ) → add64 a b ≡ of_bits ((bits a + bits b) % 2 ^ 64)
unfolding add64
add64-of_bits a b = ap of_bits (bits-add a b)

sub64-of_bits : (a b : ℤ) → sub64 a b ≡ of_bits ((bits a + (2 ^ 64 - bits b)) % 2 ^ 64)
unfolding sub64
sub64-of_bits a b = ap of_bits (bits-sub a b)

pub add64_comm : (a b : ℤ) → add64 a b ≡ add64 b a
add64_comm a b = add64-of_bits a b ∙ ap {A = ℕ} of_bits (omega arith) ∙ sym (add64-of_bits b a)

pub add64_assoc : (a b c : ℤ) → add64 (add64 a b) c ≡ add64 a (add64 b c)
add64_assoc a b c =
    add64-of_bits (add64 a b) c
    ∙ ap {A = ℕ} of_bits (omega (arith, bits-add64 a b, bits-add64 b c))
    ∙ sym (add64-of_bits a (add64 b c))

-- Taking q more off the subtrahend takes q off the difference, wrap-around or not.
pub sub64-add64 : (a b q : ℤ) → sub64 a (add64 b q) ≡ sub64 (sub64 a b) q
sub64-add64 a b q =
    sub64-of_bits a (add64 b q)
    ∙ ap {A = ℕ} of_bits
        (omega (arith, bits-add64 b q, bits-sub64 a b, bits-lt a, bits-lt b, bits-lt q))
    ∙ sym (sub64-of_bits (sub64 a b) q)

pub add64_left_comm : (a b c : ℤ) → add64 a (add64 b c) ≡ add64 b (add64 a c)
add64_left_comm a b c =
    sym (add64_assoc a b c) ∙ ap (λ t. add64 t c) (add64_comm a b) ∙ add64_assoc b a c

pub add64-IsInt64 : (a b : ℤ) → IsInt64 (add64 a b)
unfolding add64
add64-IsInt64 a b = wrap64-IsInt64 (a +ℤ b)

pub sub64-IsInt64 : (a b : ℤ) → IsInt64 (sub64 a b)
unfolding sub64
sub64-IsInt64 a b = wrap64-IsInt64 (a -ℤ b)

sub-IsInt64 : (a b : ℤ) → IsInt64 a → pos 0 ≤ℤ b → b ≤ℤ a → IsInt64 (a -ℤ b)
unfolding ◌-ℤ◌
sub-IsInt64 a b ia nb le = ground arith

-- A difference of int64 values with 0 ≤ b ≤ a does not wrap.
pub sub64_exact : (a b : ℤ) → IsInt64 a → pos 0 ≤ℤ b → b ≤ℤ a → sub64 a b ≡ a -ℤ b
unfolding sub64
sub64_exact a b ia nb le = wrap64_exact (a -ℤ b) (sub-IsInt64 a b ia nb le)

pub add64_exact : (a b : ℤ) → IsInt64 (a +ℤ b) → add64 a b ≡ a +ℤ b
unfolding add64
add64_exact a b h = wrap64_exact (a +ℤ b) h

pub add64-zero : (a : ℤ) → IsInt64 a → add64 a (pos 0) ≡ a
add64-zero a h = let e : a +ℤ pos 0 ≡ a = omega int_laws in add64_exact a (pos 0) (rw e h) ∙ e

-- An intermediate wrap-around is lost in the next one.
pub wrap64-add64 : (a b c : ℤ) → wrap64 (add64 a b +ℤ c) ≡ wrap64 (a +ℤ (b +ℤ c))
unfolding wrap64
wrap64-add64 a b c =
    ap {A = ℕ} of_bits
      (omega (arith, bits-add (add64 a b) c, bits-add64 a b, bits-add a (b +ℤ c), bits-add b c))

pub wrap64_zero : (a : ℤ) → IsInt64 a → wrap64 (a +ℤ pos 0) ≡ a
wrap64_zero a h = let e : a +ℤ pos 0 ≡ a = omega int_laws in rw e (wrap64_exact a h)
